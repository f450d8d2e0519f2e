-- ===== src/Load/Times.antt =====
-- wifi_shepard/config.py: the times of day that `_SCHEDULE_PATTERN` admits, and `_parse_hhmm` of
-- resolution.py on them.
use wifi_shepard.Load.Hours.{is_schedule, is_schedule_code}
use wifi_shepard.Prelude.{
  ℕ, ◌+◌, ◌*◌, ◌-◌, ◌≤◌, ◌<◌, String, Bool, true, false, ◌&&◌, ◌||◌, Option, none, some, List, [],
  ◌∷◌, ◌≡◌, refl, ap, ◌∙◌, ◌⊎◌, inl, inr, arith, ok, seconds, lt→ltb, codes, is_code, at_end,
  is_some, decimal, decimal-ascii, decimal-less, leb,
}
use wifi_shepard.Resolution.{parse_hhmm, hhmm_of, digit, time_of}

-- A digit that counts this.
abbrev pub Digit : ℕ → ℕ → Type 0
Digit c v = decimal c ≡ some v

-- Two digits, a colon and two digits, with a newline behind them or none. The first of each pair is an
-- ASCII digit, the hour is below 24 and the minute below 60.
pub record IsTime (s : String) : Type 0 where
  pub h : ℕ
  pub h' : ℕ
  pub m : ℕ
  pub m' : ℕ
  pub rest : List ℕ
  pub shape : codes s ≡ h ∷ h' ∷ b':' ∷ m ∷ m' ∷ rest
  pub ending : (rest ≡ []) ⊎ (rest ≡ 10 ∷ [])
  pub ones : ℕ
  pub ones_digit : Digit h' ones
  pub minute_ones : ℕ
  pub minute_ones_digit : Digit m' minute_ones
  pub hour : (b'0' ≤ h) × ((h - b'0') * 10 + ones < 24)
  pub minute : (b'0' ≤ m) × (m < b'6')

present : (o : Option ℕ) → is_some o ≡ true → (v : ℕ) × (o ≡ some v)
present none e = cc
present (some v) e = (v, refl)

small_decimal : (c : ℕ) → (leb b'0' c && leb c b'3') ≡ true → decimal c ≡ some (c - b'0')
small_decimal c e = decimal-ascii c (ground arith)

ended : (cs : List ℕ) → at_end cs ≡ true → (cs ≡ []) ⊎ (cs ≡ 10 ∷ [])
ended [] e = inl refl
ended (c ∷ []) e = let same : c ≡ 10 = ground arith in inr (ap (λ d. d ∷ []) same)
ended (c ∷ d ∷ cs) e = cc

early_hour :
    (h v : ℕ)
    → (is_code h b'0' || is_code h b'1') ≡ true
    → v < 10
    → (b'0' ≤ h) × ((h - b'0') * 10 + v < 24)
early_hour h v e bound = (ground arith, ground arith)

late_hour :
    (h d : ℕ)
    → is_code h b'2' ≡ true
    → (leb b'0' d && leb d b'3') ≡ true
    → (b'0' ≤ h) × ((h - b'0') * 10 + (d - b'0') < 24)
late_hour h d e e' = (ground arith, ground arith)

both : (b c : Bool) → (b && c) ≡ true → (b ≡ true) × (c ≡ true)
both true c e = (refl, e)
both false c e = cc

one_of : (b c : Bool) → (b || c) ≡ true → (b ≡ true) ⊎ (c ≡ true)
one_of true c e = inl refl
one_of false c e = inr e

-- The two digits of an hour.
record IsHour (h h' : ℕ) : Type 0 where
  ones : ℕ
  ones_digit : Digit h' ones
  hour : (b'0' ≤ h) × ((h - b'0') * 10 + ones < 24)

early :
    (h h' : ℕ) → ((is_code h b'0' || is_code h b'1') && is_some (decimal h')) ≡ true → IsHour h h'
early h h' e =
    let p = both (is_code h b'0' || is_code h b'1') (is_some (decimal h')) e in
    let v = present (decimal h') (p.1) in
    record {
      ones = v.0;
      ones_digit = v.1;
      hour = early_hour h (v.0) (p.0) (decimal-less h' (v.0) (v.1));
    }

late : (h h' : ℕ) → (is_code h b'2' && (leb b'0' h' && leb h' b'3')) ≡ true → IsHour h h'
late h h' e =
    let p = both (is_code h b'2') (leb b'0' h' && leb h' b'3') e in
    record {
      ones = h' - b'0';
      ones_digit = small_decimal h' (p.1);
      hour = late_hour h h' (p.0) (p.1);
    }

an_hour :
    (h h' : ℕ)
    → (((is_code h b'0' || is_code h b'1') && is_some (decimal h'))
        || (is_code h b'2' && (leb b'0' h' && leb h' b'3')))
      ≡ true
    → IsHour h h'
an_hour h h' e =
    elim (one_of ((is_code h b'0' || is_code h b'1') && is_some (decimal h'))
      (is_code h b'2' && (leb b'0' h' && leb h' b'3')) e) [
        | inl x ↦ early h h' x
        | inr x ↦ late h h' x
      ]

is_code-same : (c d : ℕ) → is_code c d ≡ true → c ≡ d
is_code-same c d e = ground arith

tens : (m : ℕ) → (leb b'0' m && leb m b'5') ≡ true → (b'0' ≤ m) × (m < b'6')
tens m e = (ground arith, ground arith)

-- A text that `_SCHEDULE_PATTERN` matches is a time.
timed : (s : String) (cs : List ℕ) → codes s ≡ cs → is_schedule_code cs ≡ true → IsTime s
unfolding is_schedule_code
timed s (h ∷ h' ∷ colon ∷ m ∷ m' ∷ rest) shape e =
    let p = both _ _ e in
    let q = both _ _ (p.0) in
    let r = both _ _ (q.0) in
    let t = both _ _ (r.0) in
    let hour = an_hour h h' (t.0) in
    let w = present (decimal m') (q.1) in
    record {
      h = h;
      h' = h';
      m = m;
      m' = m';
      rest = rest;
      shape = shape ∙ ap (λ c. h ∷ h' ∷ c ∷ m ∷ m' ∷ rest) (is_code-same colon b':' (t.1));
      ending = ended rest (p.1);
      ones = hour.ones;
      ones_digit = hour.ones_digit;
      minute_ones = w.0;
      minute_ones_digit = w.1;
      hour = hour.hour;
      minute = tens m (r.1);
    }
timed s _ shape e = cc

pub is_schedule-IsTime : (s : String) → is_schedule s ≡ true → IsTime s
unfolding is_schedule
is_schedule-IsTime s e = timed s (codes s) refl e

digit_lem : (c v : ℕ) → decimal c ≡ some v → digit c ≡ ok v
unfolding digit
digit_lem c v e = rw (digit, e) refl

time_of_lem :
    (hour minute : ℕ)
    → hour < 24
    → minute < 60
    → time_of hour minute ≡ ok (seconds (hour * 3600 + minute * 60))
unfolding time_of
time_of_lem hour minute e e' = rw (lt→ltb hour 24 e, lt→ltb minute 60 e')

ended_lem : (cs : List ℕ) → (cs ≡ []) ⊎ (cs ≡ 10 ∷ []) → at_end cs ≡ true
ended_lem cs (inl e) = rw e refl
ended_lem cs (inr e) = rw e refl

ascii : (c bound : ℕ) → b'0' ≤ c → c < bound → bound ≤ b':' → decimal c ≡ some (c - b'0')
ascii c bound low high le = decimal-ascii c (ground arith)

-- A time is parsed.
pub parse_hhmm-IsTime : (s : String) → IsTime s → (a : ℕ) × (parse_hhmm s ≡ ok a)
unfolding parse_hhmm hhmm_of
parse_hhmm-IsTime s t =
    let hour = (t.h - b'0') * 10 + t.ones in
    let minute = (t.m - b'0') * 10 + t.minute_ones in
    let bound = decimal-less t.m' t.minute_ones t.minute_ones_digit in
    let early : hour < 24 = t.hour.1 in
    let less : minute < 60 = omega (arith, t.minute.0, t.minute.1, bound) in
    let tens_digit =
      digit_lem t.h (t.h - b'0')
        (ascii t.h b'3' (t.hour.0) (omega (arith, t.hour.0, t.hour.1)) (omega arith)) in
    let minute_digit =
      digit_lem t.m (t.m - b'0') (ascii t.m b'6' (t.minute.0) (t.minute.1) (omega arith)) in
    (
      seconds (hour * 3600 + minute * 60),
      rw
          (
            t.shape,
            tens_digit,
            digit_lem t.h' t.ones t.ones_digit,
            minute_digit,
            digit_lem t.m' t.minute_ones t.minute_ones_digit,
            ended_lem t.rest t.ending,
            time_of_lem hour minute early less,
          )
          refl,
    )
