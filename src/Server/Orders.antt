-- ===== src/Server/Orders.antt =====
-- internal/server/router.go with internal/order/handler.go: an order that was created over HTTP.
use order_service_go_archite.Prelude.{
  ◌≡◌, refl, ap, ◌∙◌, ℕ, Option, Option-cases, some, Text, Result, inl, inr, ok, err,
}
use order_service_go_archite.Errors.{AppError}
use order_service_go_archite.Auth.Token.{Claims}
use order_service_go_archite.Middleware.{bearer_token}
use order_service_go_archite.Order.Model.{Uuid, CreateOrderInput, OrderOutput}
use order_service_go_archite.Order.Ports.{Ports, World}
use order_service_go_archite.Order.Contract.{View, PortLaws}
use order_service_go_archite.Order.Create
use order_service_go_archite.Order.Create.Correct.{Created, create_correct}
use order_service_go_archite.Order.Handler as OrderHandler
use order_service_go_archite.Http.{Request, replied, reply, decode_json}
use order_service_go_archite.Server.{
  create_order, Draw, Services, Backend, Answer, one_order, handle, serve, group,
}
use order_service_go_archite.Server.Access.{Behind, on_behalf, serve-Behind}

reply_ok :
    {A : Type 0} (sent : ℕ) (r : Result AppError A) {status : ℕ} {a : A}
    → reply sent r ≡ replied status a
    → r ≡ ok a
reply_ok sent (ok b) h = cc
reply_ok sent (err e) h = absurd (cc)

module _ {S : Type 0} {p : Ports S} {view : View S} (laws : PortLaws p view)
    (parse_uuid : Text → Option Uuid) (read_input : Text → Option CreateOrderInput) where
  -- The handler has replied with a value: it had a user, who has created the order.
  abbrev HandlerCreated : Request → OrderOutput → World S → World S → Type 0
  HandlerCreated r out w w' =
      (raw : Text) × (id : Uuid) × (input : CreateOrderInput) × (r.context.user_id ≡ some raw)
      × (parse_uuid raw ≡ some id)
      × (read_input r.body ≡ some input)
      × Created p view id input out w w'

  handler_decoded :
      (id : Uuid) (input : CreateOrderInput) (w : World S) {status : ℕ} {out : OrderOutput}
      → (OrderHandler.create_decoded parse_uuid p id (ok input) w).0 ≡ replied status out
      → Created p view id input out w (OrderHandler.create_decoded parse_uuid p id (ok input) w).1
  unfolding OrderHandler.create_decoded
  handler_decoded id input w h =
      create_correct laws id input w (reply_ok 201 (Create.create p id input w).0 h)

  handler_created :
      (r : Request) (w : World S) {status : ℕ} {out : OrderOutput}
      → (OrderHandler.create parse_uuid p read_input r w).0 ≡ replied status out
      → HandlerCreated r out w (OrderHandler.create parse_uuid p read_input r w).1
  unfolding OrderHandler.create OrderHandler.create_by decode_json
  handler_created r w h = elim (Option-cases r.context.user_id) [
    | inl absent ↦ absurd (let h' = rw (absent, OrderHandler.create) at h in cc)
    | inr (raw, user) ↦ elim (Option-cases (parse_uuid raw)) [
      | inl unread ↦
          absurd
            (let h' = rw (user, OrderHandler.create, unread, OrderHandler.create_by) at h in cc)
      | inr (id, read) ↦ elim (Option-cases (read_input r.body)) [
        | inl garbled ↦ absurd (
            let h' =
              rw (user, OrderHandler.create, read, OrderHandler.create_by, garbled, decode_json) at
                h in
            cc)
        | inr (input, decoded) ↦
            let used =
              rw (user, OrderHandler.create, read, OrderHandler.create_by, decoded, decode_json) at
                h in
            (
              raw,
              id,
              input,
              user,
              read,
              decoded,
              rw (user, OrderHandler.create, read, OrderHandler.create_by, decoded, decode_json)
                  (handler_decoded id input w used),
            )
      ]
    ]
  ]

module _ {S : Type 0} (v : Services S) {view : View S} (laws : PortLaws v.ports view) where
  -- The order was created on behalf of the user whose verified bearer token came with the request.
  abbrev pub CreatedByBearer : Draw → Request → OrderOutput → Backend S → Backend S → Type 0
  CreatedByBearer d r out b b' =
      (t : Text) × (c : Claims) × (id : Uuid) × (input : CreateOrderInput) × (bearer_token
          r.context.authorization
        ≡ some t)
      × (v.verify d.now t ≡ ok c)
      × (v.readers.parse_uuid c.user_id ≡ some id)
      × (v.readers.read_order r.body ≡ some input)
      × Created v.ports view id input out b.world b'.world
      × (b'.users ≡ b.users)

  on_behalf_created :
      (d : Draw) (r : Request) (b : Backend S) (t : Text) (c : Claims) (status : ℕ)
      {out : OrderOutput}
      → bearer_token r.context.authorization ≡ some t
      → v.verify d.now t ≡ ok c
      → (handle v create_order d (on_behalf c r) b).0 ≡ one_order (replied status out)
      → CreatedByBearer d r out b (handle v create_order d (on_behalf c r) b).1
  unfolding handle
  on_behalf_created d r b t c status {out} has good h =
      let replied' : (OrderHandler.create v.readers.parse_uuid v.ports v.readers.read_order
            (on_behalf c r) b.world).0
          ≡ replied status out =
        cc (h) in
      let (raw, id, input, user, read, decoded, made) =
        handler_created laws v.readers.parse_uuid v.readers.read_order (on_behalf c r) b.world
          replied' in
      (t, c, id, input, has, good, ap v.readers.parse_uuid (cc (user)) ∙ read, decoded, made, refl)

  -- When a request to create an order is answered with the order, it carried a bearer token that verifies, the
  -- user of that token is the creator of the order, and all that `Created` says of the input in the
  -- body holds between the worlds before and after; the users are as they were.
  pub created_over_http :
      (d : Draw) (r : Request) (b : Backend S) {status : ℕ} {out : OrderOutput}
      → (serve v create_order d r b).0 ≡ one_order (replied status out)
      → CreatedByBearer d r out b (serve v create_order d r b).1
  unfolding group
  created_over_http d r b {status} {out} h =
      go (serve v create_order d r b) h (serve-Behind v create_order d r b)
    where
      go :
          (served : Answer × Backend S)
          → served.0 ≡ one_order (replied status out)
          → Behind v (group create_order) create_order d r b served
          → CreatedByBearer d r out b served.1
      go served h (inl (t, c, has, good, may, same)) =
          rw same (on_behalf_created d r b t c status has good (rw same at h))
      go served h (inr (e, same, why)) = absurd (let h' = rw same at h in cc)
