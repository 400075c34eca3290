-- ===== src/Postgres/Placeholders.antt =====
-- internal/*/postgres_repository.go: the placeholders of the conditions name the values that were bound
-- for them.
use mathlib.Core.List.{append_assoc}
use order_service_go_archite.Prelude.{
  ℕ, suc, ◌≡◌, ◌<◌, ◌≤◌, refl, sym, ap, ◌∙◌, subst, Bool, true, ◌&&◌, Option, none, some, List, [],
  ◌∷◌, ◌++◌, length, length-append, get_elem?, Text, show_nat, arith,
}
use order_service_go_archite.Postgres.{Arg, Bound, bind, bind_some}

get_elem?-middle :
    {A : Type 0} (xs : List A) (a : A) (ys : List A)
    → get_elem? ((xs ++ a ∷ []) ++ ys) (length xs) ≡ some a
get_elem?-middle [] a ys = refl
get_elem?-middle (x ∷ xs) a ys = get_elem?-middle xs a ys

pub length-bind_some :
    {A : Type 0} (left : Text) (arg : A → Arg) (o : Option A) (b : Bound)
    → length (bind_some left arg o b).1 ≤ suc (length b.1)
unfolding bind_some bind
length-bind_some left arg none b = omega arith
length-bind_some left arg (some a) b = omega (arith, length-append b.1 (arg a ∷ []))

-- A server that evaluates one condition of a row against the bound values.
module _ {R : Type 0} (holds : Text → List Arg → R → Bool) where
  -- Every condition of a WHERE clause holds.
  abbrev pub all_hold : List Text → List Arg → R → Bool
  all_hold [] args r = true
  all_hold (c ∷ cs) args r = holds c args r && all_hold cs args r

  all_hold-last :
      (cs : List Text) (c : Text) (args : List Arg) (r : R)
      → all_hold (cs ++ c ∷ []) args r ≡ (all_hold cs args r && holds c args r)
  all_hold-last [] c args r = ground arith
  all_hold-last (d ∷ cs) c args r = ground (arith, all_hold-last cs c args r)

  -- What was bound so far selects the rows of `test`, whatever is bound later.
  abbrev pub Selects : Bound → (R → Bool) → Type 0
  Selects (conds, args) test =
      (later : List Arg) (r : R) → all_hold conds (args ++ later) r ≡ test r

  -- The condition `left` with a placeholder tests the value that the placeholder names; a statement has no
  -- more than 65535 of them.
  abbrev pub Tests : Text → Arg → (R → Bool) → Type 0
  Tests left a test =
      (n : ℕ) (args : List Arg) (r : R)
      → n < 65535
      → get_elem? args n ≡ some a
      → holds (left ++ show_nat (suc n)) args r ≡ test r

  pub nothing-Selects : Selects ([], []) (λ r. true)
  nothing-Selects later r = refl

  bind-Selects :
      (left : Text) (a : Arg) {test : R → Bool} (b : Bound) {so_far : R → Bool}
      → Tests left a test
      → length b.1 < 65535
      → Selects b so_far
      → Selects (bind left a b) (λ r. so_far r && test r)
  unfolding bind
  bind-Selects left a {test} (conds, args) {so_far} tests few selects later r =
      let count : length (args ++ a ∷ []) ≡ suc (length args) =
        omega (arith, length-append args (a ∷ [])) in
      let here : holds (left ++ show_nat (length (args ++ a ∷ []))) ((args ++ a ∷ []) ++ later) r
          ≡ test r =
        subst (λ n. holds (left ++ show_nat n) ((args ++ a ∷ []) ++ later) r ≡ test r) (sym count)
          (tests (length args) ((args ++ a ∷ []) ++ later) r few (get_elem?-middle args a later)) in
      let before : all_hold conds ((args ++ a ∷ []) ++ later) r ≡ so_far r =
        ap (λ (x : List Arg). all_hold conds x r) (append_assoc args (a ∷ []) later)
        ∙ selects (a ∷ later) r in
      all_hold-last conds (left ++ show_nat (length (args ++ a ∷ []))) ((args ++ a ∷ []) ++ later) r
      ∙ (ap
            (λ x.
              x && holds (left ++ show_nat (length (args ++ a ∷ []))) ((args ++ a ∷ []) ++ later) r)
            before
          ∙ ap (λ x. so_far r && x) here)

  -- A field that may be unset, for the test that an unset one passes.
  pub bind_some-Selects :
      {A : Type 0} (left : Text) (arg : A → Arg) (o : Option A) (test : Option A → R → Bool)
      (b : Bound) {so_far : R → Bool}
      → ((r : R) → test none r ≡ true)
      → ((a : A) → Tests left (arg a) (test (some a)))
      → length b.1 < 65535
      → Selects b so_far
      → Selects (bind_some left arg o b) (λ r. so_far r && test o r)
  unfolding bind_some
  bind_some-Selects left arg none test b unset tests few selects later r =
      selects later r ∙ ground (arith, unset r)
  bind_some-Selects left arg (some a) test b unset tests few selects later r =
      bind-Selects left (arg a) b (tests a) few selects later r
