-- ===== src/Params.antt =====
-- conn.go: the connection parameters of a link and the data length, checked and put into the
-- controller's units. A duration is its nanoseconds, an int64.
pub mod Ranges
use ble.Base.{
  ℕ, zero, suc, ◌+◌, ◌-◌, ◌*◌, ◌/◌, ◌^◌, Bool, true, false, ◌||◌, Option, none, some, ltb, leb,
  if◌then◌else◌,
}

pub data ℤ : Type 0 where
  pos negsuc : ℕ → ℤ

-- The tests of an int against a constant of the source.
abbrev pub ltb_int : ℤ → ℕ → Bool
ltb_int (pos n) k = ltb n k
ltb_int (negsuc n) k = true

abbrev pub gtb_int : ℤ → ℕ → Bool
gtb_int (pos n) k = ltb k n
gtb_int (negsuc n) k = false

-- In nanoseconds.
abbrev pub conn_interval_unit : ℕ
conn_interval_unit = 1250000

abbrev pub supervision_timeout_unit : ℕ
supervision_timeout_unit = 10000000

abbrev pub conn_interval_min_units : ℕ
conn_interval_min_units = 6

abbrev pub conn_interval_max_units : ℕ
conn_interval_max_units = 3200

abbrev pub conn_latency_max : ℕ
conn_latency_max = 499

abbrev pub supervision_min_units : ℕ
supervision_min_units = 10

abbrev pub supervision_max_units : ℕ
supervision_max_units = 3200

pub record ConnParams : Type 0 where
  pub interval_min : ℤ
  pub interval_max : ℤ
  pub latency : ℤ
  pub timeout : ℤ

-- A quotient of int64 that Go truncates towards zero, of a sum that may have wrapped.
unfoldable pub negative_quotient : ℕ → ℤ
negative_quotient zero = pos 0
negative_quotient (suc q) = negsuc q

unfoldable pub wrapped_quotient : ℕ → ℕ → ℤ
unfolding negative_quotient
wrapped_quotient sum unit =
    if ltb sum (2 ^ 63) then pos (sum / unit) else negative_quotient ((2 ^ 64 - sum) / unit)

-- durUnits
unfoldable pub dur_units : ℤ → ℕ → ℤ
unfolding wrapped_quotient
dur_units (negsuc n) unit = negsuc 0
dur_units (pos d) unit = wrapped_quotient (d + unit / 2) unit

-- The units that Encode returns; `none` is ErrInvalidConnParams.
pub record Encoded : Type 0 where
  pub interval_min : ℕ
  pub interval_max : ℕ
  pub latency : ℕ
  pub timeout : ℕ

unfoldable pub out_of_range : ℤ → ℕ → ℕ → Bool
out_of_range v lo hi = ltb_int v lo || gtb_int v hi

unfoldable pub natural : ℤ → ℕ
natural (pos n) = n
natural (negsuc n) = 0

-- The switch of Encode. An int is nonnegative where it is read as a number, since the cases before
-- have refused the others.
unfoldable pub encode_units : ℤ → ℤ → ℤ → ℤ → Option Encoded
unfolding out_of_range natural
encode_units imin imax latency tmo =
    if out_of_range imin conn_interval_min_units conn_interval_max_units
    then none
    else if out_of_range imax conn_interval_min_units conn_interval_max_units
    then none
    else if ltb (natural imax) (natural imin)
    then none
    else if out_of_range latency 0 conn_latency_max
    then none
    else if out_of_range tmo supervision_min_units supervision_max_units
    then none
    else if leb (natural tmo * 4) ((1 + natural latency) * natural imax)
    then none
    else some (record {
      interval_min = natural imin;
      interval_max = natural imax;
      latency = natural latency;
      timeout = natural tmo;
    })

-- ConnParams.Encode
unfoldable pub encode : ConnParams → Option Encoded
unfolding dur_units encode_units
encode p =
    encode_units (dur_units p.interval_min conn_interval_unit)
      (dur_units p.interval_max conn_interval_unit) p.latency
      (dur_units p.timeout supervision_timeout_unit)

abbrev pub data_length_min_tx_octets : ℕ
data_length_min_tx_octets = 27

abbrev pub data_length_max_tx_octets : ℕ
data_length_max_tx_octets = 251

abbrev pub data_length_min_tx_time : ℕ
data_length_min_tx_time = 328

abbrev pub data_length_max_tx_time : ℕ
data_length_max_tx_time = 17040

-- ValidateDataLength: whether the error is nil.
unfoldable pub validate_data_length : ℕ → ℕ → Bool
validate_data_length tx_octets tx_time =
    if ltb tx_octets data_length_min_tx_octets || ltb data_length_max_tx_octets tx_octets
    then false
    else if ltb tx_time data_length_min_tx_time || ltb data_length_max_tx_time tx_time
    then false
    else true
