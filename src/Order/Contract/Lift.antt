-- ===== src/Order/Contract/Lift.antt =====
-- internal/order: ports over a part of a larger state.
use order_service_go_archite.Prelude.{◌≡◌, sym, ap, ◌∙◌, Action, subst}
use order_service_go_archite.Order.Model.{Uuid}
use order_service_go_archite.Order.Ports.{OrderRepository}
use order_service_go_archite.Order.Contract.{View, StatusWritten, Processed, RepoLaws}

module _ {S T : Type 0} (get : T → S) (put : S → T → T) where
  abbrev pub lift : {E A : Type 0} → Action S E A → Action T E A
  lift f t = let (r, s) = f (get t) in (r, put s t)

  abbrev pub lift_read : {A : Type 0} → (S → A × S) → T → A × T
  lift_read f t = let (a, s) = f (get t) in (a, put s t)

  abbrev pub lift_repository : OrderRepository S → OrderRepository T
  lift_repository repo = record {
    create_with_items = λ o items. lift (repo.create_with_items o items);
    find_by_id = λ id. lift (repo.find_by_id id);
    update_status = λ id st. lift (repo.update_status id st);
    mark_processed = λ id st t. lift (repo.mark_processed id st t);
    list = λ f. lift (repo.list f);
  }

  abbrev pub lift_view : View S → View T
  lift_view view t id = view (get t) id

  module _ (get-put : (s : S) (t : T) → get (put s t) ≡ s) (view : View S) where
    seen : (s : S) (t : T) (j : Uuid) → view (get (put s t)) j ≡ view s j
    seen s t j = ap (λ (x : S). view x j) (get-put s t)

    pub lift_repository-RepoLaws :
        {repo : OrderRepository S}
        → RepoLaws repo view
        → RepoLaws (lift_repository repo) (lift_view view)
    lift_repository-RepoLaws {repo} laws = record {
      find_some = λ id t e. laws.find_some id (get t) e;
      find_none = λ id t e. laws.find_none id (get t) e;
      find_keeps = λ id t j. seen _ t j ∙ laws.find_keeps id (get t) j;
      list_keeps = λ f t j. seen _ t j ∙ laws.list_keeps f (get t) j;
      update_ok = λ id st t e.
          subst (StatusWritten st (view (get t) id))
            (sym (seen (repo.update_status id st (get t)).1 t id)) (laws.update_ok id st (get t) e);
      update_err = λ id st t e. seen _ t id ∙ laws.update_err id st (get t) e;
      update_others = λ id st t j other. seen _ t j ∙ laws.update_others id st (get t) j other;
      mark_ok = λ id st u t e.
          subst (Processed st u (view (get t) id))
            (sym (seen (repo.mark_processed id st u (get t)).1 t id))
            (laws.mark_ok id st u (get t) e);
      mark_err = λ id st u t e. seen _ t id ∙ laws.mark_err id st u (get t) e;
      mark_others = λ id st u t j other. seen _ t j ∙ laws.mark_others id st u (get t) j other;
      create_ok = λ o items t e. seen _ t o.id ∙ laws.create_ok o items (get t) e;
      create_err = λ o items t e. seen _ t o.id ∙ laws.create_err o items (get t) e;
      create_others = λ o items t j other. seen _ t j ∙ laws.create_others o items (get t) j other;
    }
