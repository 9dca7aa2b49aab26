-- ===== src/Notify/Embed/Within.antt =====
-- Discord's limits on an embed.
use Prim.Native.Char.{Char, len_utf8}
use Prim.Native.Nat.{Ordering, compare as compare_ℕ}
use Prim.Native.String.{fits}
use Prim.Native.String.len.{cons as len-cons}
use Prim.Native.String.slice.{nil as slice-nil, cons-zero}
use text.Mathlib.TextPositions.{len-append}
use compose_lock.Prelude.{
  ℕ, zero, suc, ◌+◌, ◌-◌, ◌≤◌, ◌≡◌, refl, ap, String, len, slice, Bool, true, false, List, [], ◌∷◌,
  arith, ltb, ◌==◌, All, map, Bool-cases, inl, inr, length, if◌then◌else◌,
}
use compose_lock.Notify.Embed.{
  Field, Embed, Shown, Alert, ellipsis, retreat, truncate, or_dash, short_hash, fit_field,
  fit_fields, take, report_fields, format_duration, build_embed, build_alert_embed, max_fields,
  max_field_value_len,
}

len_of_cons : (c : Char) (s : String) → len (String.◌∷◌ c s) ≡ len_utf8 c + len s
len_of_cons c s i = len-cons c s i

slice_of_nil : (b : ℕ) → slice "" 0 b ≡ ""
slice_of_nil b i = slice-nil 0 b i

slice_of_cons :
    (c : Char) (s : String) (b : ℕ)
    → slice (String.◌∷◌ c s) 0 b ≡ fits (compare_ℕ (len_utf8 c) b) c (slice s 0 (b - len_utf8 c))
slice_of_cons c s b i = cons-zero c s b i

len-fits :
    (w b : ℕ) (c : Char) (s : String) (o : Ordering)
    → compare_ℕ w b ≡ o
    → len_utf8 c ≡ w
    → len s ≤ b - w
    → len (fits o c s) ≤ b
len-fits w b c s Ordering.lt q e h = rw (len_of_cons c s) (ground arith)
len-fits w b c s Ordering.eq q e h = rw (len_of_cons c s) (ground arith)
len-fits w b c s Ordering.gt q e h = omega arith

len-slice-le : (s : String) (b : ℕ) → len (slice s 0 b) ≤ b
len-slice-le String.[] b = rw (slice_of_nil b) (omega arith)
len-slice-le (String.◌∷◌ c s) b = rw (slice_of_cons c s b) (
    len-fits (len_utf8 c) b c (slice s 0 (b - len_utf8 c)) _ refl refl
      (len-slice-le s (b - len_utf8 c)))

retreat-le : (s : String) (n : ℕ) → retreat s n ≤ n
unfolding retreat
retreat-le s zero = omega arith
retreat-le s (suc n) = ground (arith, retreat-le s n)

len-truncate : (s : String) (n : ℕ) → 3 ≤ n → len (truncate s n) ≤ n
unfolding truncate
len-truncate s n h = ground (
  arith,
  h,
  retreat-le s (n - 3),
  len-slice-le s (retreat s (n - 3)),
  len-append (slice s 0 (retreat s (n - 3))) ellipsis,
)

len-or_dash : (s : String) (n : ℕ) → 1 ≤ n → len s ≤ n → len (or_dash s) ≤ n
unfolding or_dash
len-or_dash s n p h = elim (Bool-cases (s == "")) [ inl e ↦ rw e (omega arith) | inr e ↦ rw e h ]

or_dash-ne : (s : String) → (or_dash s == "") ≡ false
unfolding or_dash
or_dash-ne s = elim (Bool-cases (s == "")) [ inl e ↦ rw e refl | inr e ↦ rw (e, e) refl ]

-- A field that Discord accepts.
pub record IsFitting (f : Field) : Type 0 where
  pub short_name : len f.name ≤ 1024
  pub short_value : len f.value ≤ 1024
  pub has_value : (f.value == "") ≡ false

fit_field-IsFitting : (f : Field) → IsFitting (fit_field f)
unfolding fit_field
fit_field-IsFitting f = record {
  short_name = len-truncate f.name 1024 (omega arith);
  short_value = len-or_dash _ 1024 (omega arith) (len-truncate f.value 1024 (omega arith));
  has_value = or_dash-ne (truncate f.value max_field_value_len);
}

All-fit_field : (fs : List Field) → All IsFitting (map fit_field fs)
All-fit_field [] = tt
All-fit_field (f ∷ fs) = (fit_field-IsFitting f, All-fit_field fs)

length-map : (fs : List Field) → length (map fit_field fs) ≡ length fs
length-map [] = refl
length-map (f ∷ fs) = ap suc (length-map fs)

length-take : (n : ℕ) (fs : List Field) → length (take n fs) ≤ n
unfolding take
length-take zero fs = omega arith
length-take (suc n) [] = omega arith
length-take (suc n) (f ∷ fs) = omega (arith, length-take n fs)

length-fit_fields : (fs : List Field) → length (fit_fields fs) ≤ max_fields
unfolding fit_fields
length-fit_fields fs = ground (
  arith,
  length-map (if ltb max_fields (length fs) then take max_fields fs else fs),
  length-take max_fields fs,
)

-- An embed that Discord accepts.
pub record IsWithin (e : Embed) : Type 0 where
  pub short_heading : len e.heading ≤ 256
  pub few : length e.fields ≤ 25
  pub fitting : All IsFitting e.fields

-- The embed of every report keeps the limits of Discord: a heading of at most 256 bytes, at most 25 fields,
-- and in each field a name and a value of at most 1024 bytes, the value not empty.
pub build_embed-IsWithin :
    (show_duration : ℕ → String) (s : Shown) → IsWithin (build_embed show_duration s)
unfolding build_embed fit_fields
build_embed-IsWithin show_duration s = record {
  short_heading = len-truncate _ 256 (omega arith);
  few = length-fit_fields (report_fields show_duration s);
  fitting = All-fit_field _;
}

truncated-IsFitting :
    (name value : String) (n : ℕ) (inline : Bool)
    → len name ≤ 1024
    → 3 ≤ n
    → n ≤ 1024
    → IsFitting (record { name = name; value = or_dash (truncate value n); inline = inline })
truncated-IsFitting name value n inline p q r = record {
  short_name = p;
  short_value = len-or_dash _ 1024 (omega arith) (omega (arith, len-truncate value n q));
  has_value = or_dash-ne (truncate value n);
}

len-short_hash : (s : String) → len (short_hash s) ≤ 7
unfolding short_hash
len-short_hash s = ground (arith, len-slice-le s 7)

-- The embed of an alert keeps the same limits, where durations print as texts of 1 to 1024 bytes.
pub build_alert_embed-IsWithin :
    (show_duration : ℕ → String) (a : Alert)
    → ((d : ℕ) → len (show_duration d) ≤ 1024)
    → ((d : ℕ) → (show_duration d == "") ≡ false)
    → IsWithin (build_alert_embed show_duration a)
unfolding build_alert_embed format_duration
build_alert_embed-IsWithin show_duration a short filled = record {
  short_heading = len-truncate _ 256 (omega arith);
  few = omega arith;
  fitting = (
    truncated-IsFitting "Stack" a.stack 1024 true (omega arith) (omega arith) (omega arith),
    (
      record {
        short_name = omega arith;
        short_value = len-or_dash _ 1024 (omega arith) (omega (arith, len-short_hash a.commit));
        has_value = or_dash-ne (short_hash a.commit);
      },
      (
        truncated-IsFitting "Branch" a.branch 1024 true (omega arith) (omega arith) (omega arith),
        (
          record { short_name = omega arith; short_value = short _; has_value = filled _ },
          (
            truncated-IsFitting "Problem" a.problem 500 false (omega arith) (omega arith)
                (omega arith),
            tt,
          ),
        ),
      ),
    ),
  );
}
