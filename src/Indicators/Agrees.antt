-- ===== src/Indicators/Agrees.antt =====
-- A smoothed series on data and on later data.
use live_auto_trading.Prelude.{
  ℕ, ◌+◌, ◌-◌, ◌≤◌, ◌≡◌, refl, sym, ap, ◌∙◌, Bool, true, false, Option, none, some, List, [], ◌∷◌,
  ◌++◌, map, arith, ltb, length, take, drop, replicate, IsPrefix, IsPrefix-cons, IsPrefix-append,
  replicate-IsPrefix, append-nil, take-append, drop-append, length-append, length-replicate,
  length-drop, if◌then◌else◌,
}
use live_auto_trading.Prelude.Options.{>>=-eq_some}
use mathlib.Core.Path.{subst}
use live_auto_trading.Dict.{some_eq}
use live_auto_trading.Indicators.Series.{scan, seeded}

-- `us` is what is said of the first `n` data, and `bs` goes on from it.
pub record Agrees {B : Type 0} (n : ℕ) (us bs : List B) : Type 0 where
  pub length_eq : length us ≡ n
  pub prefix : IsPrefix us bs

module _ {A B S : Type 0} (next : S → A → Option (S × B)) where
  scan-Agrees :
      (s : S) (xs ys : List A) {bs : List B}
      → scan next s (xs ++ ys) ≡ some bs
      → (us : List B) × (scan next s xs ≡ some us) × Agrees (length xs) us bs
  unfolding scan
  scan-Agrees s [] ys {bs} h =
      ([], refl, record { length_eq = refl; prefix = record { rest = bs; split = refl } })
  scan-Agrees s (x ∷ xs) ys {bs} h =
      let (step, e, h1) = >>=-eq_some (next s x) _ h in
      let (later, l, h2) = >>=-eq_some (scan next step.0 (xs ++ ys)) _ h1 in
      let (us, f, agrees) = scan-Agrees step.0 xs ys l in
      (
        step.1 ∷ us,
        rw (e, f) refl,
        record {
          length_eq = omega (arith, agrees.length_eq);
          prefix = subst (IsPrefix (step.1 ∷ us)) (some_eq h2) (IsPrefix-cons step.1 agrees.prefix);
        },
      )

map-IsPrefix : {B : Type 0} {us bs : List B} → IsPrefix us bs → IsPrefix (map some us) (map some bs)
map-IsPrefix {us} p = record {
  rest = map some p.rest;
  split = ap (map some) p.split ∙ mapped us p.rest;
}
  where
    mapped : {B : Type 0} (xs ys : List B) → map some (xs ++ ys) ≡ map some xs ++ map some ys
    mapped [] ys = refl
    mapped (x ∷ xs) ys = ap (λ zs. some x ∷ zs) (mapped xs ys)

length-map : {B : Type 0} (xs : List B) → length (map some xs) ≡ length xs
length-map [] = refl
length-map (x ∷ xs) = omega (arith, length-map xs)

module _ {A B S : Type 0} (blanks period : ℕ) (start : List A → Option (S × B))
    (next : S → A → Option (S × B)) where
  seeded-Agrees :
      (xs ys : List A) {bs : List (Option B)}
      → period ≤ length xs
      → seeded blanks period start next (xs ++ ys) ≡ some bs
      → (us : List (Option B)) × (seeded blanks period start next xs ≡ some us)
        × Agrees (blanks + 1 + (length xs - period)) us bs
  unfolding seeded
  seeded-Agrees xs ys {bs} long h =
      let (first, f, h1) = >>=-eq_some (start (take period (xs ++ ys))) _ h in
      let (later, l, h2) = >>=-eq_some (scan next first.0 (drop period (xs ++ ys))) _ h1 in
      let begun = sym (ap start (take-append period xs ys long)) ∙ f in
      let went_on = sym (ap (scan next first.0) (drop-append period xs ys long)) ∙ l in
      let (us, g, agrees) = scan-Agrees next first.0 (drop period xs) ys went_on in
      let out = replicate blanks none ++ some first.1 ∷ map some us in
      (
        out,
        rw (begun, g) refl,
        record {
          length_eq = omega (
            arith,
            length-append (replicate blanks none) (some first.1 ∷ map some us),
            length-replicate {A = Option B} blanks none,
            length-map us,
            agrees.length_eq,
            length-drop period xs long,
          );
          prefix = subst (IsPrefix out) (some_eq h2) (
              IsPrefix-append (replicate blanks none)
                (IsPrefix-cons (some first.1) (map-IsPrefix agrees.prefix)));
        },
      )

  seeded-blank :
      (xs : List A) {bs : List (Option B)}
      → seeded blanks period start next xs ≡ some bs
      → (rest : List (Option B)) × (bs ≡ replicate blanks none ++ rest)
  unfolding seeded
  seeded-blank xs h =
      let (first, f, h1) = >>=-eq_some (start (take period xs)) _ h in
      let (later, l, h2) = >>=-eq_some (scan next first.0 (drop period xs)) _ h1 in
      (_, sym (some_eq h2))

  -- An indicator of `n` data: blanks while `n` is below `least`, and a seeded series from there on.
  abbrev series : ℕ → ℕ → List A → Option (List (Option B))
  series least n xs =
      if ltb n least then some (replicate n none) else seeded blanks period start next xs

  pub series-Agrees :
      (least n m : ℕ) (xs ys : List A) {bs : List (Option B)}
      → least ≡ blanks + 1
      → n + period ≡ length xs + least
      → m + period ≡ length (xs ++ ys) + least
      → series least m (xs ++ ys) ≡ some bs
      → (us : List (Option B)) × (series least n xs ≡ some us) × Agrees n us bs
  series-Agrees least n m xs ys {bs} e en em h = cases (ltb n least) refl
    where
      few : ltb n least ≡ true → n ≤ blanks
      few short = ground arith

      blank : ltb n least ≡ true → (c : Bool) → ltb m least ≡ c → IsPrefix (replicate n none) bs
      blank short true c =
          subst (IsPrefix (replicate n none)) (append-nil (replicate m none) ∙ some_eq (rw c at h))
            (replicate-IsPrefix n m none [] (omega (arith, length-append xs ys, en, em)))
      blank short false c =
          let (rest, split) = seeded-blank (xs ++ ys) (rw c at h) in
          subst (IsPrefix (replicate n none)) (sym split)
            (replicate-IsPrefix n blanks none rest (few short))

      more : ltb n least ≡ false → ltb m least ≡ false
      more long = ground (arith, length-append xs ys)

      cases :
          (c : Bool)
          → ltb n least ≡ c
          → (us : List (Option B)) × (series least n xs ≡ some us) × Agrees n us bs
      cases true short = (
        replicate n none,
        rw short refl,
        record { length_eq = length-replicate n none; prefix = blank short (ltb m least) refl },
      )
      cases false long =
          let (us, s, agrees) = seeded-Agrees xs ys (ground arith) (rw (more long) at h) in
          (
            us,
            rw long s,
            record { length_eq = ground (arith, agrees.length_eq); prefix = agrees.prefix },
          )
