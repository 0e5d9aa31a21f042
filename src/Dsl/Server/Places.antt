-- ===== src/Dsl/Server/Places.antt =====
-- dsl/tools/language_server/main.py: the section and the identifier at the cursor.
use steeleagle.Prelude.{
  ℕ, zero, suc, ◌≤◌, ◌≡◌, refl, sym, ap, ◌∙◌, inl, inr, Option, none, some, List, [], ◌∷◌, arith,
  ltb, Bool-cases, Option-cases, length, get_elem?,
}
use steeleagle.Dsl.Server.{Section, heading, section_above, detect_section}

-- the heading, where there is one, and else the section that the lines above are in
abbrev or_else : Option Section → Option Section → Option Section
or_else none s = s
or_else (some s) t = some s

-- The section that one is in behind the first `n` lines, reading from the top.
unfoldable pub reading : Option Section → List (List ℕ) → ℕ → Option Section
reading s [] n = s
reading s (l ∷ ls) zero = s
reading s (l ∷ ls) (suc n) = reading (or_else (heading l) s) ls n

section_above-cons :
    (l : List ℕ) (ls : List (List ℕ)) (n : ℕ)
    → section_above (l ∷ ls) (suc n) ≡ or_else (section_above ls n) (heading l)
unfolding section_above
section_above-cons l ls zero = elim (Option-cases (heading l)) [
  | inl plain ↦ rw (plain, section_above)
  | inr (s, headed) ↦ rw (headed, section_above)
]
section_above-cons l ls (suc n) = elim (Option-cases (get_elem? ls n)) [
  | inl outside ↦ rw (outside, section_above) (section_above-cons l ls n)
  | inr (line, found) ↦ elim (Option-cases (heading line)) [
    | inl plain ↦ rw (found, plain, section_above) (section_above-cons l ls n)
    | inr (s, headed) ↦ rw (found, headed, section_above)
  ]
]

or_else_assoc : (a b c : Option Section) → or_else a (or_else b c) ≡ or_else (or_else a b) c
or_else_assoc none b c = refl
or_else_assoc (some s) b c = refl

or_else-none : (a : Option Section) → a ≡ or_else a none
or_else-none none = refl
or_else-none (some s) = refl

section_above-reading :
    (s : Option Section) (ls : List (List ℕ)) (n : ℕ)
    → n ≤ length ls
    → or_else (section_above ls n) s ≡ reading s ls n
unfolding section_above reading
section_above-reading s [] zero within = refl
section_above-reading s [] (suc n) within = absurd (omega arith)
section_above-reading s (l ∷ ls) zero within = refl
section_above-reading s (l ∷ ls) (suc n) within =
    ap (λ (t : Option Section). or_else t s) (section_above-cons l ls n)
    ∙ sym (or_else_assoc (section_above ls n) (heading l) s)
    ∙ section_above-reading (or_else (heading l) s) ls n (omega arith)

reading_past :
    (s : Option Section) (ls : List (List ℕ)) (n : ℕ)
    → length ls ≤ n
    → reading s ls n ≡ reading s ls (length ls)
unfolding reading
reading_past s [] n past = refl
reading_past s (l ∷ ls) zero past = absurd (omega arith)
reading_past s (l ∷ ls) (suc n) past = reading_past (or_else (heading l) s) ls n (omega arith)

-- `detect_section` goes up from the cursor's line to the nearest heading. That is the section that one
-- is in on reading the text from its first line up to that line, for every text and line, a line behind
-- the end of the text included.
pub detect_section-reading :
    (lines : List (List ℕ)) (line : ℕ) → detect_section lines line ≡ reading none lines (suc line)
unfolding detect_section
detect_section-reading lines line = elim (Bool-cases (ltb line (length lines))) [
  | inl inside ↦ rw inside (
      or_else-none (section_above lines (suc line))
      ∙ section_above-reading none lines (suc line) (ground arith))
  | inr behind ↦ rw behind (
      or_else-none (section_above lines (length lines))
      ∙ section_above-reading none lines (length lines) (omega arith)
      ∙ sym (reading_past none lines (suc line) (ground arith)))
]
