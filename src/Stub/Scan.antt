-- ===== src/Stub/Scan.antt =====
-- Scanning a text for a pattern that does not occur in its first part.
use kaspa_python_sdk.Prelude.{
  ℕ, suc, ◌+◌, ◌≡◌, refl, ap, ◌∙◌, Bool, true, false, ◌&&◌, Option, none, some, [], ◌∷◌, ◌++◌,
  nat_beq, nat_beq_iff, Bool-cases, inl, inr, length, take, drop, append_assoc, arith,
}
use kaspa_python_sdk.Stub.Text.{Text, starts_with, contains_text, find, replace_from, replace}

abbrev pub every : (ℕ → Bool) → Text → Bool
every q [] = true
every q (c ∷ text) = q c && every q text

pub every-append :
    (q : ℕ → Bool) (s t : Text) → every q s ≡ true → every q t ≡ true → every q (s ++ t) ≡ true
every-append q [] t hs ht = ht
every-append q (c ∷ s) t hs ht = ground (arith, every-append q s t)

nat_beq-apart : (q : ℕ → Bool) (a c : ℕ) → q a ≡ true → q c ≡ false → nat_beq c a ≡ false
nat_beq-apart q a c ha hc = elim (Bool-cases (nat_beq c a)) [
  | inl e ↦ absurd (ground (arith, ap q ((nat_beq_iff c a).0 e), ha, hc))
  | inr e ↦ e
]

-- `pat` is at no character of `s`, where `t` follows it
abbrev pub Skips : Text → Text → Text → Type 0
Skips pat [] t = Unit {0}
Skips pat (c ∷ s) t = (starts_with (c ∷ s ++ t) pat ≡ false) × Skips pat s t

module _ (q : ℕ → Bool) where
  -- the first characters that fail the test differ
  starts_with-apart :
      (u : Text) (x : ℕ) (v s : Text) (y : ℕ) (w : Text)
      → every q u ≡ true
      → q x ≡ false
      → every q s ≡ true
      → q y ≡ false
      → nat_beq x y ≡ false
      → starts_with (s ++ y ∷ w) (u ++ x ∷ v) ≡ false
  unfolding starts_with
  starts_with-apart [] x v [] y w hu hx hs hy ne = ground (arith, ne)
  starts_with-apart [] x v (c ∷ s) y w hu hx hs hy ne =
      let apart = nat_beq-apart q c x in ground (arith, apart)
  starts_with-apart (a ∷ u) x v [] y w hu hx hs hy ne = elim (Bool-cases (nat_beq a y)) [
    | inl e ↦ absurd (ground (arith, ap q ((nat_beq_iff a y).0 e), hu, hy))
    | inr e ↦ rw e refl
  ]
  starts_with-apart (a ∷ u) x v (c ∷ s) y w hu hx hs hy ne =
      let rest = starts_with-apart u x v s y w in ground (arith, rest)

  pub Skips-apart :
      (u : Text) (x : ℕ) (v s : Text) (y : ℕ) (w : Text)
      → every q u ≡ true
      → q x ≡ false
      → every q s ≡ true
      → q y ≡ false
      → nat_beq x y ≡ false
      → Skips (u ++ x ∷ v) s (y ∷ w)
  Skips-apart u x v [] y w hu hx hs hy ne = tt
  Skips-apart u x v (c ∷ s) y w hu hx hs hy ne = (
    starts_with-apart u x v (c ∷ s) y w hu hx hs hy ne,
    Skips-apart u x v s y w hu hx (ground (arith, hs)) hy ne,
  )

  -- the first character of the pattern fails the test
  pub Skips-first : (x : ℕ) (v s t : Text) → q x ≡ false → every q s ≡ true → Skips (x ∷ v) s t
  unfolding starts_with
  Skips-first x v [] t hx hs = tt
  Skips-first x v (c ∷ s) t hx hs =
      let apart = nat_beq-apart q c x in
      (ground (arith, apart), Skips-first x v s t hx (ground (arith, hs)))

pub Skips-append : (pat s t w : Text) → Skips pat s (t ++ w) → Skips pat t w → Skips pat (s ++ t) w
Skips-append pat [] t w hs ht = ht
Skips-append pat (c ∷ s) t w hs ht = (
  ap (λ text. starts_with (c ∷ text) pat) (append_assoc s t w) ∙ hs.0,
  Skips-append pat s t w hs.1 ht,
)

pub replace_from-Skips :
    (pat to s t : Text)
    → Skips pat s t
    → replace_from pat to 0 (s ++ t) ≡ s ++ replace_from pat to 0 t
unfolding replace_from
replace_from-Skips pat to [] t h = refl
replace_from-Skips pat to (c ∷ s) t h =
    rw (replace_from, h.0) (ap (λ r. c ∷ r) (replace_from-Skips pat to s t h.1))

pub contains_text-Skips :
    (pat s t : Text) → Skips pat s t → contains_text (s ++ t) pat ≡ contains_text t pat
unfolding contains_text
contains_text-Skips pat [] t h = refl
contains_text-Skips pat (c ∷ s) t h = rw (contains_text, h.0) (contains_text-Skips pat s t h.1)

abbrev pub later : ℕ → Option ℕ → Option ℕ
later n none = none
later n (some i) = some (n + i)

pub find-Skips :
    (pat s t : Text) → Skips pat s t → find (s ++ t) pat ≡ later (length s) (find t pat)
unfolding find
find-Skips pat [] t h = ground arith
find-Skips pat (c ∷ s) t h = rw (find, h.0) (ground (arith, find-Skips pat s t h.1))

-- what holds a text still does after any other
pub contains_text-append :
    (s t pat : Text) → contains_text t pat ≡ true → contains_text (s ++ t) pat ≡ true
unfolding contains_text
contains_text-append [] t pat h = h
contains_text-append (c ∷ s) t pat h = ground (arith, contains_text-append s t pat h)

pub replace_of_absent :
    (text pat to : Text) → contains_text text pat ≡ false → replace text pat to ≡ text
unfolding contains_text replace_from
replace_of_absent [] pat to h = refl
replace_of_absent (c ∷ text) pat to h = elim (Bool-cases (starts_with (c ∷ text) pat)) [
  | inl e ↦ absurd (ground (arith, h, e))
  | inr e ↦
      rw (replace_from, e) (ap (λ r. c ∷ r) (replace_of_absent text pat to (ground (arith, h, e))))
]

pub drop-append : (s t : Text) (n : ℕ) → drop (length s + n) (s ++ t) ≡ drop n t
drop-append [] t n = ground arith
drop-append (c ∷ s) t n =
    let one_more : suc (length s) + n ≡ suc (length s + n) = omega arith in
    ap (λ k. drop k (c ∷ s ++ t)) one_more ∙ drop-append s t n

pub take-length : (s t : Text) → take (length s) (s ++ t) ≡ s
take-length [] t = refl
take-length (c ∷ s) t = ap (λ r. c ∷ r) (take-length s t)
