-- ===== src/Options/TimeLimit/Forms.antt =====
-- The six forms of `--time`.
use slurm_async_runner.Prelude.{
  ℕ, ◌+◌, ◌*◌, ◌/◌, ◌%◌, ◌≤◌, List, [], ◌∷◌, ◌++◌, some, is_empty, ok, err, ltb, ◌==◌, ◌≡◌, refl,
  arith, All, map, if◌then◌else◌, false, ◌∙◌, All-of_map, ◌≢◌, ◌||◌,
}
use slurm_async_runner.Prelude.Text.{
  Text, split, join, Lacks, is_digit, split-join, split_once-append, split_once_of_Lacks,
  Lacks-join, is_empty-join, is_empty-append, IsDigit, Lacks-of_digits,
}
use slurm_async_runner.Prelude.Number.{
  max_u32, parse_uint, show_2, show_2-digits, show_2-two_digits, parse_uint-show_2,
}
use slurm_async_runner.Options.TimeLimit.{
  JobTimeLimit, LimitIsValid, show_limit, parse_limit, hours, minutes, seconds_part, limit_error,
  total_seconds, after_days, without_days,
}

-- A decimal number as it may stand between the separators, leading zeros included.
pub record Component : Type 0 where
  pub text : Text
  pub value : ℕ
  pub digits : All IsDigit text
  pub reads : parse_uint max_u32 text ≡ some value

-- The forms that Slurm documents, in its order.
pub data Form : Type 0 where
  m_form : (m : Component) → Form
  ms_form : (m s : Component) → Form
  hms_form : (h m s : Component) → Form
  dh_form : (d h : Component) → Form
  dhm_form : (d h m : Component) → Form
  dhms_form : (d h m s : Component) → Form

abbrev pub colons : List Component → Text
colons cs = join b':' (map (λ c. c.text) cs)

abbrev pub write : Form → Text
write (m_form m) = colons (m ∷ [])
write (ms_form m s) = colons (m ∷ s ∷ [])
write (hms_form h m s) = colons (h ∷ m ∷ s ∷ [])
write (dh_form d h) = d.text ++ b'-' ∷ colons (h ∷ [])
write (dhm_form d h m) = d.text ++ b'-' ∷ colons (h ∷ m ∷ [])
write (dhms_form d h m s) = d.text ++ b'-' ∷ colons (h ∷ m ∷ s ∷ [])

-- The number of seconds that a form stands for.
abbrev pub total : Form → ℕ
total (m_form m) = m.value * 60
total (ms_form m s) = m.value * 60 + s.value
total (hms_form h m s) = h.value * 3_600 + m.value * 60 + s.value
total (dh_form d h) = d.value * 86_400 + h.value * 3_600
total (dhm_form d h m) = d.value * 86_400 + h.value * 3_600 + m.value * 60
total (dhms_form d h m s) = d.value * 86_400 + h.value * 3_600 + m.value * 60 + s.value

component-Lacks : (d : ℕ) (c : Component) → is_digit d ≡ false → Lacks d c.text
component-Lacks d c h = Lacks-of_digits d c.text h c.digits

filled_of_reads : (t : Text) (n : ℕ) → parse_uint max_u32 t ≡ some n → is_empty t ≡ false
unfolding parse_uint
filled_of_reads [] n h = cc
filled_of_reads (c ∷ t) n h = refl

component_filled : (c : Component) → is_empty c.text ≡ false
component_filled c = filled_of_reads c.text c.value c.reads

colons-Lacks : (d : ℕ) (cs : List Component) → is_digit d ≡ false → b':' ≢ d → Lacks d (colons cs)
colons-Lacks d cs h n =
    Lacks-join b':' d (map (λ c. c.text) cs) n
      (All-of_map (Lacks d) (λ c. c.text) cs (λ c. component-Lacks d c h))

split-colons :
    (c : Component) (cs : List Component)
    → split b':' (colons (c ∷ cs)) ≡ map (λ c. c.text) (c ∷ cs)
split-colons c cs =
    split-join b':' c.text (map (λ c. c.text) cs)
      (All-of_map (Lacks b':') (λ c. c.text) (c ∷ cs) (λ c. component-Lacks b':' c refl))

colons_filled : (c : Component) (cs : List Component) → is_empty (colons (c ∷ cs)) ≡ false
colons_filled c cs = is_empty-join b':' c.text (map (λ c. c.text) cs) (component_filled c)

-- With days in front, and without.
total-days_of_split :
    (d : Component) (rest : Text) (parts : List Text)
    → is_empty rest ≡ false
    → split b':' rest ≡ parts
    → total_seconds (d.text ++ b'-' ∷ rest) ≡ after_days (d.text ++ b'-' ∷ rest) d.value parts
unfolding total_seconds
total-days_of_split d rest parts filled e = ground (
  arith,
  split_once-append b'-' d.text rest (component-Lacks b'-' d refl),
  component_filled d,
  d.reads,
)

total-no_days_of_split :
    (s : Text) (parts : List Text)
    → Lacks b'-' s
    → split b':' s ≡ parts
    → total_seconds s ≡ without_days s parts
unfolding total_seconds
total-no_days_of_split s parts h e = ground (arith, split_once_of_Lacks b'-' s h)

total-days :
    (d c : Component) (cs : List Component)
    → total_seconds (d.text ++ b'-' ∷ colons (c ∷ cs))
      ≡ after_days (d.text ++ b'-' ∷ colons (c ∷ cs)) d.value (map (λ c. c.text) (c ∷ cs))
total-days d c cs =
    total-days_of_split d (colons (c ∷ cs)) _ (colons_filled c cs) (split-colons c cs)

total-no_days :
    (c : Component) (cs : List Component)
    → total_seconds (colons (c ∷ cs)) ≡ without_days (colons (c ∷ cs)) (map (λ c. c.text) (c ∷ cs))
total-no_days c cs =
    total-no_days_of_split (colons (c ∷ cs)) _ (colons-Lacks b'-' (c ∷ cs) refl (omega arith))
      (split-colons c cs)

total_seconds-write : (f : Form) → total_seconds (write f) ≡ ok (total f)
unfolding after_days without_days
total_seconds-write (m_form m) = rw (total-no_days m [], m.reads)
total_seconds-write (ms_form m s) = rw (total-no_days m (s ∷ []), m.reads, s.reads)
total_seconds-write (hms_form h m s) = rw (total-no_days h (m ∷ s ∷ []), h.reads, m.reads, s.reads)
total_seconds-write (dh_form d h) = rw (total-days d h [], h.reads)
total_seconds-write (dhm_form d h m) = rw (total-days d h (m ∷ []), h.reads, m.reads)
total_seconds-write (dhms_form d h m s) =
    rw (total-days d h (m ∷ s ∷ []), h.reads, m.reads, s.reads)

write_filled : (f : Form) → is_empty (write f) ≡ false
write_filled (m_form m) = colons_filled m []
write_filled (ms_form m s) = colons_filled m (s ∷ [])
write_filled (hms_form h m s) = colons_filled h (m ∷ s ∷ [])
write_filled (dh_form d h) = is_empty-append d.text b'-' (colons (h ∷ []))
write_filled (dhm_form d h m) = is_empty-append d.text b'-' (colons (h ∷ m ∷ []))
write_filled (dhms_form d h m s) = is_empty-append d.text b'-' (colons (h ∷ m ∷ s ∷ []))

-- Every text of one of Slurm's six forms, leading zeros allowed, parses to the number of seconds
-- that the form stands for; it is refused exactly if that number is zero or exceeds `u32`.
pub parse_limit-write :
    (f : Form)
    → parse_limit (write f) ≡ (
        if ltb max_u32 (total f) || total f == 0
        then err (limit_error (write f))
        else ok (record { seconds = total f }))
unfolding parse_limit
parse_limit-write f = rw (write_filled f, total_seconds-write f) (ground arith)

padded_component : (n : ℕ) → n ≤ max_u32 → Component
padded_component n h = record {
  text = show_2 n;
  value = n;
  digits = show_2-digits n;
  reads = parse_uint-show_2 max_u32 n h;
}

-- The two digits of a number below 100.
abbrev pub two_digits : ℕ → Text
two_digits n = (b'0' + n / 10) ∷ (b'0' + n % 10) ∷ []

-- A limit is printed as `HH:MM:SS`: its whole hours as a decimal number, the minutes of the last hour
-- and the seconds of the last minute in two digits each. That text parses to the same limit.
pub parse_limit-show_limit :
    (t : JobTimeLimit)
    → LimitIsValid t
    → (parse_limit (show_limit t) ≡ ok t)
      × (h : Component) × (h.value ≡ t.seconds / 3600)
      × (show_limit t
          ≡ h.text
            ++ b':' ∷ (two_digits (t.seconds % 3600 / 60) ++ b':' ∷ two_digits (t.seconds % 60)))
unfolding show_limit minutes seconds_part hours padded_component join
parse_limit-show_limit t v =
    let h = padded_component (t.seconds / 3600) (omega arith) in
    let m = padded_component (t.seconds % 3600 / 60) (omega arith) in
    let s = padded_component (t.seconds % 60) (omega arith) in
    let sum : total (hms_form h m s) ≡ t.seconds = omega arith in
    (
      parse_limit-write (hms_form h m s) ∙ rw sum (ground arith),
      h,
      refl,
      rw
          (
            show_2-two_digits (t.seconds % 3600 / 60) (omega arith),
            show_2-two_digits (t.seconds % 60) (omega arith),
          )
          refl,
    )

-- The parser accepts only positive limits in the range of `u32`.
pub parse_limit-LimitIsValid : (s : Text) (t : JobTimeLimit) → parse_limit s ≡ ok t → LimitIsValid t
unfolding parse_limit
parse_limit-LimitIsValid s t h = grind arith
