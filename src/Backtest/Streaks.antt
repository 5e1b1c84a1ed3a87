-- ===== src/Backtest/Streaks.antt =====
-- The streaks and the drawdown among the metrics.
use live_auto_trading.Prelude.{
  ℕ, ◌+◌, ◌≤◌, ◌≡◌, refl, ◌∙◌, Bool, true, false, some, List, [], ◌∷◌, arith, Bool-cases, inl, inr,
}
use live_auto_trading.Decimal.{Decimal, zero, sub, lt, max}
use live_auto_trading.Decimal.Sign.{
  IsNonneg, IsNonneg-of_pos, IsPositive-of_le-zero, not_le_of_lt, sub-IsNonneg, div-IsNonneg,
  div_pos, le-max_right, max-IsNonneg,
}
use live_auto_trading.Backtest.Metrics.{longer, streak_from, max_streak, max_drawdown_of}

-- the items at the start that pass the test
abbrev pub lead : (Decimal → Bool) → List Decimal → ℕ
lead ok [] = 0
lead ok (p ∷ ps) = elim (ok p) [ true ↦ lead ok ps + 1 | false ↦ 0 ]

-- The longest run of items that pass, wherever it starts.
abbrev pub longest : (Decimal → Bool) → List Decimal → ℕ
longest ok [] = 0
longest ok (p ∷ ps) = longer (lead ok (p ∷ ps)) (longest ok ps)

lead_below : (ok : Decimal → Bool) (ps : List Decimal) → lead ok ps ≤ longest ok ps
lead_below ok [] = omega arith
lead_below ok (p ∷ ps) = ground arith

extended :
    (best cur l g : ℕ)
    → longer (longer best (cur + 1)) (longer (cur + 1 + l) g)
      ≡ longer best (longer (cur + (l + 1)) (longer (l + 1) g))
extended best cur l g = ground arith

broken :
    (best cur l g : ℕ)
    → cur ≤ best
    → l ≤ g
    → longer best (longer (0 + l) g) ≡ longer best (longer (cur + 0) (longer 0 g))
broken best cur l g h k = ground arith

streak_lem :
    (ok : Decimal → Bool) (best cur : ℕ) (ps : List Decimal)
    → cur ≤ best
    → streak_from ok best cur ps ≡ longer best (longer (cur + lead ok ps) (longest ok ps))
unfolding streak_from
streak_lem ok best cur [] h = ground arith
streak_lem ok best cur (p ∷ ps) h = elim (Bool-cases (ok p)) [
  | inl e ↦
      rw (streak_from, lead, longest, e)
        (streak_lem ok (longer best (cur + 1)) (cur + 1) ps (ground arith)
          ∙ extended best cur (lead ok ps) (longest ok ps))
  | inr e ↦
      rw (streak_from, lead, longest, e)
        (streak_lem ok best 0 ps (omega arith)
          ∙ broken best cur (lead ok ps) (longest ok ps) h (lead_below ok ps))
]

-- `_max_streak` counts the longest run of items that pass the test, among all the places where a run may
-- start.
pub max_streak-longest :
    (ok : Decimal → Bool) (pnls : List Decimal) → max_streak ok pnls ≡ longest ok pnls
max_streak-longest ok pnls =
    streak_lem ok 0 0 pnls (omega arith)
    ∙ rest (lead ok pnls) (longest ok pnls) (lead_below ok pnls)
  where
    rest : (l g : ℕ) → l ≤ g → longer 0 (longer (0 + l) g) ≡ g
    rest l g h = ground arith

-- The drawdown over a curve never raises, and it is not negative.
max_drawdown-IsNonneg :
    (peak deepest : Decimal) (curve : List (ℕ × Decimal))
    → IsNonneg deepest
    → (d : Decimal) × (max_drawdown_of peak deepest curve ≡ some d) × IsNonneg d
unfolding max_drawdown_of
max_drawdown-IsNonneg peak deepest [] h = (deepest, refl, h)
max_drawdown-IsNonneg peak deepest ((time, equity) ∷ curve) h =
    elim (Bool-cases (lt zero (max peak equity))) [
      | inl e ↦
          let positive =
            IsPositive-of_le-zero (max peak equity) (not_le_of_lt zero (max peak equity) e) in
          let (fall, found) = div_pos (sub (max peak equity) equity) (max peak equity) positive in
          let below =
            div-IsNonneg (sub (max peak equity) equity) (max peak equity)
              (sub-IsNonneg (max peak equity) equity (le-max_right peak equity))
              (IsNonneg-of_pos (max peak equity) positive) found in
          rw (max_drawdown_of, e, found)
            (max_drawdown-IsNonneg (max peak equity) (max deepest fall) curve
              (max-IsNonneg deepest fall h below))
      | inr e ↦ rw (max_drawdown_of, e) (max_drawdown-IsNonneg (max peak equity) deepest curve h)
    ]
