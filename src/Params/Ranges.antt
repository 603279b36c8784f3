-- ===== src/Params/Ranges.antt =====
-- What Encode accepts is what the controller may be given, and nothing else is accepted.
use mathlib.Core.Path.{subst}
use ble.Base.{
  true, ℕ, zero, suc, inl, inr, Bool-cases, ltb→lt, sym, ◌∙◌, ◌+◌, ◌-◌, ◌*◌, ◌/◌, ◌^◌, ◌≤◌, ◌<◌,
  ◌≡◌, refl, ◌↔◌, arith, none, some, Option, ltb,
}
use ble.Params.{
  validate_data_length, ℤ, pos, negsuc, ConnParams, Encoded, encode, dur_units, encode_units,
  wrapped_quotient, negative_quotient, out_of_range, natural,
}

-- The ranges of the Bluetooth specification, in the controller's units.
pub record Permitted (e : Encoded) : Type 0 where
  pub interval_min_lo : 6 ≤ e.interval_min
  pub interval_order : e.interval_min ≤ e.interval_max
  pub interval_max_hi : e.interval_max ≤ 3200
  pub latency_hi : e.latency ≤ 499
  pub timeout_lo : 10 ≤ e.timeout
  pub timeout_hi : e.timeout ≤ 3200
  pub supervision : (1 + e.latency) * e.interval_max < 4 * e.timeout

-- `n` units are the duration `d`, rounded to the nearest unit, a half upwards.
pub Rounds : ℤ → ℕ → ℕ → Type 0
Rounds (pos d) unit n = (n * unit ≤ d + unit / 2) × (d + unit / 2 < n * unit + unit)
Rounds (negsuc d) unit n = ⊥

-- The encoding of the parameters, by the specification.
pub record Encodes (p : ConnParams) (e : Encoded) : Type 0 where
  pub interval_min : Rounds p.interval_min 1250000 e.interval_min
  pub interval_max : Rounds p.interval_max 1250000 e.interval_max
  pub timeout : Rounds p.timeout 10000000 e.timeout
  pub latency : p.latency ≡ pos e.latency

pos-injective : (m n : ℕ) → pos m ≡ pos n → m ≡ n
pos-injective m n e = cc

negative_quotient-pos : (q n : ℕ) → 0 < n → negative_quotient q ≡ pos n → ⊥
unfolding negative_quotient
negative_quotient-pos zero n h e = let f = pos-injective 0 n e in omega arith
negative_quotient-pos (suc q) n h e = cc

wrapped_quotient-pos :
    (sum unit n : ℕ) → 0 < n → wrapped_quotient sum unit ≡ pos n → (sum < 2 ^ 63) × (sum / unit ≡ n)
unfolding wrapped_quotient
wrapped_quotient-pos sum unit n h e = elim (Bool-cases (ltb sum (2 ^ 63))) [
  | inl f ↦ (ltb→lt sum (2 ^ 63) f, pos-injective (sum / unit) n (sym (rw f refl) ∙ e))
  | inr f ↦ absurd (negative_quotient-pos ((2 ^ 64 - sum) / unit) n h (sym (rw f refl) ∙ e))
]

interval-Rounds : (d : ℤ) (n : ℕ) → 0 < n → dur_units d 1250000 ≡ pos n → Rounds d 1250000 n
unfolding dur_units Rounds
interval-Rounds (negsuc d) n h e = cc
interval-Rounds (pos d) n h e =
    omega (arith, (wrapped_quotient-pos (d + 1250000 / 2) 1250000 n h e).1)

timeout-Rounds : (d : ℤ) (n : ℕ) → 0 < n → dur_units d 10000000 ≡ pos n → Rounds d 10000000 n
unfolding dur_units Rounds
timeout-Rounds (negsuc d) n h e = cc
timeout-Rounds (pos d) n h e =
    omega (arith, (wrapped_quotient-pos (d + 10000000 / 2) 10000000 n h e).1)

Rounds-interval : (d : ℤ) (n : ℕ) → n ≤ 3200 → Rounds d 1250000 n → dur_units d 1250000 ≡ pos n
unfolding dur_units Rounds wrapped_quotient
Rounds-interval (negsuc d) n h r = absurd r
Rounds-interval (pos d) n h r = ground arith

Rounds-timeout : (d : ℤ) (n : ℕ) → n ≤ 3200 → Rounds d 10000000 n → dur_units d 10000000 ≡ pos n
unfolding dur_units Rounds wrapped_quotient
Rounds-timeout (negsuc d) n h r = absurd r
Rounds-timeout (pos d) n h r = ground arith

-- What holds of an outcome of the switch.
Accepted : ℤ → ℤ → ℤ → ℤ → Option Encoded → Type 0
Accepted imin imax latency tmo none = Unit {0}
Accepted imin imax latency tmo (some e) =
    (imin ≡ pos e.interval_min)
    × (imax ≡ pos e.interval_max)
    × (latency ≡ pos e.latency)
    × (tmo ≡ pos e.timeout)
    × Permitted e

encode_units-Accepted :
    (imin imax latency tmo : ℤ)
    → Accepted imin imax latency tmo (encode_units imin imax latency tmo)
unfolding encode_units out_of_range natural Accepted
encode_units-Accepted (negsuc imin) imax latency tmo = tt
encode_units-Accepted (pos imin) (negsuc imax) latency tmo = ground arith
encode_units-Accepted (pos imin) (pos imax) (negsuc latency) tmo = ground arith
encode_units-Accepted (pos imin) (pos imax) (pos latency) (negsuc tmo) = ground arith
encode_units-Accepted (pos imin) (pos imax) (pos latency) (pos tmo) = ground arith

encode_units-Permitted :
    (e : Encoded)
    → Permitted e
    → encode_units (pos e.interval_min) (pos e.interval_max) (pos e.latency) (pos e.timeout)
      ≡ some e
unfolding encode_units out_of_range natural
encode_units-Permitted e h = ground arith

accepted :
    (imin imax latency tmo : ℤ) (e : Encoded)
    → encode_units imin imax latency tmo ≡ some e
    → Accepted imin imax latency tmo (some e)
accepted imin imax latency tmo e h =
    subst (λ x. Accepted imin imax latency tmo x) h (encode_units-Accepted imin imax latency tmo)

encode-Encodes : (p : ConnParams) (e : Encoded) → encode p ≡ some e → Encodes p e × Permitted e
unfolding encode Accepted
encode-Encodes p e h =
    let a =
      accepted (dur_units p.interval_min 1250000) (dur_units p.interval_max 1250000) p.latency
        (dur_units p.timeout 10000000) e h in
    let r : Permitted e = a.4 in
    (
      record {
        interval_min =
            interval-Rounds p.interval_min e.interval_min (omega (arith, r.interval_min_lo)) a.0;
        interval_max =
            interval-Rounds p.interval_max e.interval_max
              (omega (arith, r.interval_min_lo, r.interval_order)) a.1;
        timeout = timeout-Rounds p.timeout e.timeout (omega (arith, r.timeout_lo)) a.3;
        latency = a.2;
      },
      r,
    )

Encodes-encode : (p : ConnParams) (e : Encoded) → Encodes p e → Permitted e → encode p ≡ some e
unfolding encode
Encodes-encode p e c r =
    rw
      (
        Rounds-interval p.interval_min e.interval_min
            (omega (arith, r.interval_order, r.interval_max_hi)) c.interval_min,
        Rounds-interval p.interval_max e.interval_max r.interval_max_hi c.interval_max,
        c.latency,
        Rounds-timeout p.timeout e.timeout r.timeout_hi c.timeout,
      )
      (encode_units-Permitted e r)

-- Encode returns units exactly when they are the requested durations and latency, the durations
-- rounded to the nearest unit, and lie in the specification's ranges: intervals from 6 to 3200 in
-- order, a latency up to 499, a timeout from 10 to 3200 with 4 timeouts above (1 + latency) intervals.
-- It fails on all other parameters, negative and overflowing durations included.
pub encode_iff : (p : ConnParams) (e : Encoded) → (encode p ≡ some e) ↔ (Encodes p e × Permitted e)
encode_iff p e = (encode-Encodes p e, λ h. Encodes-encode p e h.0 h.1)

-- ValidateDataLength accepts exactly the ranges of the specification.
pub validate_data_length_iff :
    (tx_octets tx_time : ℕ)
    → (validate_data_length tx_octets tx_time ≡ true)
      ↔ ((27 ≤ tx_octets × tx_octets ≤ 251) × (328 ≤ tx_time × tx_time ≤ 17040))
unfolding validate_data_length
validate_data_length_iff tx_octets tx_time = ground arith
