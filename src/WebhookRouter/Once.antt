-- ===== src/WebhookRouter/Once.antt =====
-- src/gateway/src/core/webhook-router.ts: a delivery is taken once within five minutes.
use flopsy.Prelude.{
  ℕ, ◌+◌, ◌≤◌, ◌≡◌, refl, ap, ◌∙◌, ◌≢◌, inl, inr, Bool, true, false, Option, none, some, List, [],
  ◌∷◌, arith, ltb, Bool-cases, All, Text, str_eq, str_eq_iff, str_eq_refl,
}
use flopsy.Prelude.JsMap
use flopsy.Prelude.JsMap.{JsMap}
use flopsy.MessageRouter.{WorkerOps, MessageRouter}
use flopsy.Security.{NodeCrypto}
use flopsy.WebhookRouter.{
  delivery_dedup_ttl_ms, ExternalWebhookConfig, WebhookRequest, TaskEvent, WebhookReply, duplicate,
  JsonOps, purge, verify, dedup_key, remember, handle, handle_new,
}

-- A request, with the time, its endpoint and the message router at that time.
pub record Delivery (C W M J : Type 0) : Type 0 where
  pub now : ℕ
  pub config : ExternalWebhookConfig J
  pub request : WebhookRequest
  pub router : MessageRouter C W M

get-purge :
    (now t : ℕ) (key : Text) (recent : JsMap ℕ)
    → now ≤ t + delivery_dedup_ttl_ms
    → JsMap.get key recent ≡ some t
    → JsMap.get key (purge now recent) ≡ some t
unfolding purge JsMap.get
get-purge now t key [] le h = cc
get-purge now t key ((k, s) ∷ m) le h = elim (Bool-cases (str_eq k key)) [
  | inl same ↦
      let at : some s ≡ some t = ground (arith, h, same) in
      let e : s ≡ t = cc in
      let early : ltb (s + 300_000) now ≡ false = ground (arith, le, e) in rw early (rw same at)
  | inr other ↦
      let rest = get-purge now t key m le (ground (arith, h, other)) in
      elim (Bool-cases (ltb (s + 300_000) now)) [
        | inl old ↦ rw old rest
        | inr new ↦ rw new (rw other rest)
      ]
]

-- A delivery that is remembered stays so while it is not too old.
remember-keeps :
    (now t : ℕ) (key : Text) (k : Option Text) (recent : JsMap ℕ)
    → now ≤ t + delivery_dedup_ttl_ms
    → JsMap.get key recent ≡ some t
    → JsMap.get key (remember now k recent).1 ≡ some t
unfolding remember
remember-keeps now t key none recent le h = h
remember-keeps now t key (some k) recent le h =
    let left = purge now recent in
    let kept = get-purge now t key recent le h in
    elim (Bool-cases (JsMap.has k left)) [
      | inl there ↦ rw there kept
      | inr new ↦ rw new (elim (Bool-cases (str_eq k key)) [
        | inl same ↦
            let has : JsMap.has key left ≡ true = JsMap.has-of_get key left t kept in
            let e : k ≡ key = (str_eq_iff k key).0 same in cc
        | inr other ↦ JsMap.get-set k key now left ∙ rw other kept
      ])
    ]

remember-duplicate :
    (now t : ℕ) (key : Text) (recent : JsMap ℕ)
    → now ≤ t + delivery_dedup_ttl_ms
    → JsMap.get key recent ≡ some t
    → (remember now (some key) recent).0 ≡ true
unfolding remember
remember-duplicate now t key recent le h =
    let kept = get-purge now t key recent le h in
    rw (JsMap.has-of_get key (purge now recent) t kept) refl

remember-new :
    (now : ℕ) (key : Text) (recent : JsMap ℕ)
    → (remember now (some key) recent).0 ≡ false
    → JsMap.get key (remember now (some key) recent).1 ≡ some now
unfolding remember
remember-new now key recent h =
    let left = purge now recent in
    elim (Bool-cases (JsMap.has key left)) [
      | inl there ↦ let absurd : true ≡ false = ground (arith, h, there) in cc
      | inr new ↦ rw new (JsMap.get-set key key now left ∙ rw (str_eq_refl key) refl)
    ]

module _ {C W M J : Type 0} (ops : WorkerOps C W M) (inject_event : TaskEvent → W → W)
    (json : JsonOps J) (crypto : NodeCrypto) where
  unfoldable pub handled : Delivery C W M J → JsMap ℕ → WebhookReply × MessageRouter C W M × JsMap ℕ
  handled d recent = handle ops inject_event json crypto d.now d.config d.request d.router recent

  -- The deliveries that are remembered after some requests.
  unfoldable pub remembered : List (Delivery C W M J) → JsMap ℕ → JsMap ℕ
  remembered [] recent = recent
  remembered (d ∷ ds) recent = remembered ds (handled d recent).2

  handle_new-remembered :
      (d : Delivery C W M J) (x : Bool × JsMap ℕ)
      → (handle_new ops inject_event json crypto d.now d.config d.request d.router x).2 ≡ x.1
  unfolding handle_new
  handle_new-remembered d (true, recent) = refl
  handle_new-remembered d (false, recent) = refl

  handled-keeps :
      (d : Delivery C W M J) (t : ℕ) (key : Text) (recent : JsMap ℕ)
      → d.now ≤ t + delivery_dedup_ttl_ms
      → JsMap.get key recent ≡ some t
      → JsMap.get key (handled d recent).2 ≡ some t
  unfolding handled handle
  handled-keeps d t key recent le h =
      let k = dedup_key d.config d.request in
      elim (Bool-cases (verify crypto d.request d.config)) [
        | inl valid ↦ rw valid (
            ap (JsMap.get key) (handle_new-remembered d (remember d.now k recent))
            ∙ remember-keeps d.now t key k recent le h)
        | inr bad ↦ rw bad h
      ]

  remembered-keeps :
      (ds : List (Delivery C W M J)) (t : ℕ) (key : Text) (recent : JsMap ℕ)
      → All (λ d. d.now ≤ t + delivery_dedup_ttl_ms) ds
      → JsMap.get key recent ≡ some t
      → JsMap.get key (remembered ds recent) ≡ some t
  unfolding remembered
  remembered-keeps [] t key recent le h = h
  remembered-keeps (d ∷ ds) t key recent le h =
      remembered-keeps ds t key (handled d recent).2 le.1 (handled-keeps d t key recent le.0 h)

  handle_new-duplicate :
      (d : Delivery C W M J) (x : Bool × JsMap ℕ)
      → x.0 ≡ true
      → ((handle_new ops inject_event json crypto d.now d.config d.request d.router x).0
          ≡ duplicate)
        × ((handle_new ops inject_event json crypto d.now d.config d.request d.router x).1
            ≡ d.router)
  unfolding handle_new
  handle_new-duplicate d (true, recent) h = (refl, refl)
  handle_new-duplicate d (false, recent) h = cc

  not_duplicate-new :
      (d : Delivery C W M J) (key : Text) (recent : JsMap ℕ)
      → verify crypto d.request d.config ≡ true
      → dedup_key d.config d.request ≡ some key
      → (handled d recent).0 ≢ duplicate
      → (remember d.now (some key) recent).0 ≡ false
  unfolding handled handle
  not_duplicate-new d key recent valid k h =
      elim (Bool-cases (remember d.now (some key) recent).0) [
        | inl again ↦
            let x = remember d.now (dedup_key d.config d.request) recent in
            let dup =
              (handle_new-duplicate d x (ap (λ o. (remember d.now o recent).0) k ∙ again)).0 in
            elim (h (rw valid dup)) [ ]
        | inr new ↦ new
      ]

  handled-new :
      (d : Delivery C W M J) (key : Text) (recent : JsMap ℕ)
      → verify crypto d.request d.config ≡ true
      → dedup_key d.config d.request ≡ some key
      → (handled d recent).0 ≢ duplicate
      → JsMap.get key (handled d recent).2 ≡ some d.now
  unfolding handled handle
  handled-new d key recent valid k h =
      let x = remember d.now (dedup_key d.config d.request) recent in
      rw valid (
        ap (JsMap.get key) (handle_new-remembered d x)
        ∙ ap (λ o. JsMap.get key (remember d.now o recent).1) k
        ∙ remember-new d.now key recent (not_duplicate-new d key recent valid k h))

  -- A delivery that passes the check of its signature and was not answered as a duplicate, whatever
  -- else its answer was, is remembered: after any requests in the next five minutes, and whatever the
  -- message router is by then, another one in these five minutes that passes the check, with the same
  -- endpoint name and delivery id, is answered as a duplicate and leaves the message router, and so
  -- every worker, as it is.
  pub handled-remembered :
      (d d' : Delivery C W M J) (ds : List (Delivery C W M J)) (key : Text) (recent : JsMap ℕ)
      → verify crypto d.request d.config ≡ true
      → verify crypto d'.request d'.config ≡ true
      → dedup_key d.config d.request ≡ some key
      → dedup_key d'.config d'.request ≡ some key
      → (handled d recent).0 ≢ duplicate
      → All (λ e. e.now ≤ d.now + delivery_dedup_ttl_ms) ds
      → d'.now ≤ d.now + delivery_dedup_ttl_ms
      → ((handled d' (remembered ds (handled d recent).2)).0 ≡ duplicate)
        × ((handled d' (remembered ds (handled d recent).2)).1 ≡ d'.router)
  unfolding handled handle
  handled-remembered d d' ds key recent valid valid' k k' h le le' =
      let left = remembered ds (handled d recent).2 in
      let kept =
        remembered-keeps ds d.now key (handled d recent).2 le
          (handled-new d key recent valid k h) in
      let dup = remember-duplicate d'.now d.now key left le' kept in
      let (p, q) =
        handle_new-duplicate d' (remember d'.now (dedup_key d'.config d'.request) left)
          (ap (λ o. (remember d'.now o left).0) k' ∙ dup) in
      (rw valid' p, rw valid' q)
