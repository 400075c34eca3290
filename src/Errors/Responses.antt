-- ===== src/Errors/Responses.antt =====
-- internal/errors/handler.go: what an error response never depends on.
use order_service_go_archite.Prelude.{◌≡◌, refl, sym, ◌∙◌, inl, inr, Option, Option-cases, Text}
use order_service_go_archite.Errors.{AppError, GoError, app, wrap, plain, as_app, render, write}

-- Errors that differ only in what is meant for the log: the cause of an application error, the texts
-- that wrap it, and the text of an error that is none.
pub data Alike : GoError → GoError → Type 0 where
  wrapped : {e f : GoError} (m : Text) → Alike e f → Alike (wrap m e) f
  same_app : (a : AppError) (c : Option Text) → Alike (app (record a { cause = c })) (app a)
  both_plain : (m n : Text) → Alike (plain m) (plain n)
  turned : {e f : GoError} → Alike e f → Alike f e
  chained : {e f g : GoError} → Alike e f → Alike f g → Alike e g

write-wrap : (m : Text) (e : GoError) → write (wrap m e) ≡ write e
unfolding write as_app render
write-wrap m e = elim (Option-cases (as_app e)) [
  | inl none_inside ↦ rw (none_inside, write) refl
  | inr (a, inside) ↦ rw (inside, write) refl
]

-- Two errors that differ only in the cause of an application error, in the texts that wrap it, or in
-- the text of any other error are answered with the same status, code and message.
pub write_hides : {e f : GoError} → Alike e f → write e ≡ write f
unfolding write as_app render
write_hides (wrapped {e} m a) = write-wrap m e ∙ write_hides a
write_hides (same_app a c) = refl
write_hides (both_plain m n) = refl
write_hides (turned a) = sym (write_hides a)
write_hides (chained a b) = write_hides a ∙ write_hides b
