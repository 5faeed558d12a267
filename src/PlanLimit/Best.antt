-- ===== src/PlanLimit/Best.antt =====
-- Proofs on QuotasFrom and moreGenerous of api/internal/domain/planlimit/quotas.go.
use ctech_account.Common.{
  ◌≡◌, refl, ap, ◌≤◌, ◌-◌, ◌^◌, ◌⊎◌, inl, inr, String, true, false, Option, none, some, List, [],
  ◌∷◌, All, arith, if◌then◌else◌, Bool-cases,
}
use ctech_account.Action.{ok}
use ctech_account.Organization.Model.{Limit, unlimited, at_most, Quotas}
use ctech_account.PlanLimit.Quotas.{
  Int64, Subscription, Entitlements, rank, more_generous, quotas_of, prefer, choose, default_quotas,
  chosen_or_default, quotas_from,
}

more_generous_trans :
    (a b c : Quotas)
    → more_generous a b ≡ true
    → more_generous a c ≡ false
    → more_generous b c ≡ false
unfolding more_generous
more_generous_trans a b c h k = ground arith

less_generous_trans :
    (a b c : Quotas)
    → more_generous a b ≡ false
    → more_generous b c ≡ false
    → more_generous a c ≡ false
unfolding more_generous
less_generous_trans a b c h k = ground arith

more_generous_irrefl : (a : Quotas) → more_generous a a ≡ false
unfolding more_generous
more_generous_irrefl a = ground arith

-- A limit covers another when it allows as much: no limit covers every one, and a limit covers no limit
-- from math.MaxInt64 on.
abbrev pub Covers : Limit → Limit → Type 0
Covers unlimited m = Unit {0}
Covers (at_most n) unlimited = 2 ^ 63 - 1 ≤ n
Covers (at_most n) (at_most m) = m ≤ n

-- `q` allows as many spaces as `p`, and where the spaces are the same as many people in each.
abbrev pub AsGenerous : Quotas → Quotas → Type 0
AsGenerous q p =
    Covers q.spaces p.spaces × (q.spaces ≡ p.spaces → Covers q.people_per_space p.people_per_space)

rank-Covers : (l m : Limit) → rank m ≤ rank l → Covers l m
unfolding rank
rank-Covers unlimited m h = tt
rank-Covers (at_most n) unlimited h = h
rank-Covers (at_most n) (at_most m) h = h

not_more-AsGenerous : (q p : Quotas) → more_generous p q ≡ false → AsGenerous q p
unfolding more_generous
not_more-AsGenerous q p h = (
  rank-Covers q.spaces p.spaces (ground arith),
  λ e.
      let r : rank q.spaces ≡ rank p.spaces = ap rank e in
      rank-Covers q.people_per_space p.people_per_space (ground arith),
)

none_more-AsGenerous :
    (q : Quotas) (ps : List Quotas)
    → All (λ p. more_generous p q ≡ false) ps
    → All (AsGenerous q) ps
none_more-AsGenerous q [] a = tt
none_more-AsGenerous q (p ∷ ps) (h, a) = (not_more-AsGenerous q p h, none_more-AsGenerous q ps a)

abbrev pub OneOf : {A : Type 0} → A → List A → Type 0
OneOf a [] = ⊥
OneOf a (x ∷ xs) = (a ≡ x) ⊎ OneOf a xs

module _ (parse : String → Option Int64) where
  -- The quotas of the entitled subscriptions.
  abbrev pub offered : List Subscription → List Quotas
  offered [] = []
  offered (s ∷ ss) = let rest = offered ss in if s.entitled then quotas_of parse s ∷ rest else rest

  -- `q` is the choice from `qs`, with `c` chosen before.
  pub record Chosen (c : Quotas) (qs : List Quotas) (q : Quotas) : Type 0 where
    pub from : (q ≡ c) ⊎ OneOf q qs
    pub first : more_generous c q ≡ false
    pub others : All (λ p. more_generous p q ≡ false) qs

  -- A more generous `b` takes the place of `c`.
  taken :
      (c b : Quotas) (qs : List Quotas) {chosen : Option Quotas}
      → more_generous b c ≡ true
      → (q : Quotas) × (chosen ≡ some q) × Chosen b qs q
      → (q : Quotas) × (chosen ≡ some q) × Chosen c (b ∷ qs) q
  taken c b qs g (q, e, h) = (
    q,
    e,
    record {
      from = inr (elim (h.from) [ inl p ↦ inl p | inr p ↦ inr p ]);
      first = more_generous_trans b c q g h.first;
      others = (h.first, h.others);
    },
  )

  passed :
      (c b : Quotas) (qs : List Quotas) {chosen : Option Quotas}
      → more_generous b c ≡ false
      → (q : Quotas) × (chosen ≡ some q) × Chosen c qs q
      → (q : Quotas) × (chosen ≡ some q) × Chosen c (b ∷ qs) q
  passed c b qs g (q, e, h) = (
    q,
    e,
    record {
      from = elim (h.from) [ inl p ↦ inl p | inr p ↦ inr (inr p) ];
      first = h.first;
      others = (less_generous_trans b c q g h.first, h.others);
    },
  )

  choose-Chosen :
      (c : Quotas) (ss : List Subscription)
      → (q : Quotas) × (choose parse (some c) ss ≡ some q) × Chosen c (offered ss) q
  unfolding choose prefer
  choose-Chosen c [] =
      (c, refl, record { from = inl refl; first = more_generous_irrefl c; others = tt })
  choose-Chosen c (s ∷ ss) = elim (Bool-cases s.entitled) [
    | inr e ↦ rw e (choose-Chosen c ss)
    | inl e ↦ elim (Bool-cases (more_generous (quotas_of parse s) c)) [
      | inl g ↦
          rw (e, g)
            (taken c (quotas_of parse s) (offered ss) g (choose-Chosen (quotas_of parse s) ss))
      | inr g ↦ rw (e, g) (passed c (quotas_of parse s) (offered ss) g (choose-Chosen c ss))
    ]
  ]

  first_choice :
      (ss : List Subscription)
      → (offered ss ≡ []) × (choose parse none ss ≡ none)
        ⊎ ((q : Quotas) × (choose parse none ss ≡ some q)
            × OneOf q (offered ss)
            × All (λ p. more_generous p q ≡ false) (offered ss))
  unfolding choose prefer
  first_choice [] = inl (refl, refl)
  first_choice (s ∷ ss) = elim (Bool-cases s.entitled) [
    | inr e ↦ rw e (first_choice ss)
    | inl e ↦
        let (q, h, c) = choose-Chosen (quotas_of parse s) ss in
        rw e (inr (q, h, c.from, (c.first, c.others)))
  ]

  -- Where no subscription is entitled, QuotasFrom reads the default plan, and fails without one.
  -- Otherwise it succeeds with the quotas of one that is, and these are as generous as those of every
  -- entitled subscription: they allow as many spaces, no limit being the most, and as many people in each
  -- space wherever the other subscription has the same limit of spaces.
  pub quotas_from-best :
      (e : Entitlements)
      → (offered e.subscriptions ≡ []) × (quotas_from parse e ≡ default_quotas parse e.default_plan)
        ⊎ ((q : Quotas) × (quotas_from parse e ≡ ok q)
            × OneOf q (offered e.subscriptions)
            × All (AsGenerous q) (offered e.subscriptions))
  unfolding quotas_from
  quotas_from-best e = elim (first_choice e.subscriptions) [
    | inl (n, h) ↦ inl (n, ap (chosen_or_default parse e.default_plan) h)
    | inr (q, h, o, a) ↦
        inr (q, ap (chosen_or_default parse e.default_plan) h, o, none_more-AsGenerous q _ a)
  ]
