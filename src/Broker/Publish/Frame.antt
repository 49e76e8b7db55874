-- ===== src/Broker/Publish/Frame.antt =====
-- What publishing does to the table of clients.
use teme_pcom.Prelude.{
  Bytes, List, Option-cases, [], ap, get_elem?, get_elem?-set-cases, inl, inr, refl, some, sym, ℕ,
  ◌∙◌, ◌∷◌, ◌≡◌,
}
use teme_pcom.Broker.Publish.{reset_sent, deliver_at, Outbox, publish, deliver, deliver_all}
use teme_pcom.Broker.Clients.{find_client_by_id, Client}
use teme_pcom.Broker.Clients.Registry.{client_found, WellFormed}
use teme_pcom.Broker.Topics.{TopicEntry}
use teme_pcom.Broker.Publish.Once.{
  deliver_at-open, deliver_at-closed, matching_ids, open_or_closed, publish_from-matching_ids,
}
use teme_pcom.Broker.Publish.Receivers.{reset_at}

-- Index by index the same clients, up to `sent_message`.
abbrev pub SameTable : List Client → List Client → Type 0
SameTable clients clients' =
    (j : ℕ) (d : Client)
    → get_elem? clients' j ≡ some d
    → (c : Client) × (get_elem? clients j ≡ some c)
      × (d.id ≡ c.id)
      × (d.sockfd ≡ c.sockfd)
      × (d.connected ≡ c.connected)

SameTable-trans : (xs ys zs : List Client) → SameTable xs ys → SameTable ys zs → SameTable xs zs
SameTable-trans xs ys zs f g j d h =
    let (c, at, e1, e2, e3) = g j d h in
    let (b, at', f1, f2, f3) = f j c at in (b, at', e1 ∙ f1, e2 ∙ f2, e3 ∙ f3)

SameTable-refl : (xs : List Client) → SameTable xs xs
SameTable-refl xs j d h = (d, h, refl, refl, refl)

deliver_at-SameTable :
    (i : ℕ) (o : Outbox) (c : Client)
    → get_elem? o.clients i ≡ some c
    → SameTable o.clients (deliver_at i o c).clients
deliver_at-SameTable i o c at = elim (open_or_closed c) [
  | inl closed ↦ rw (deliver_at-closed i o c closed) (SameTable-refl o.clients)
  | inr (conn, new) ↦ rw (deliver_at-open i o c conn new) (λ j d h.
      elim (get_elem?-set-cases o.clients i j _ d h) [
        | inl (ej, ed) ↦
            (c, rw ej at, ap (λ x. x.id) ed, ap (λ x. x.sockfd) ed, ap (λ x. x.connected) ed)
        | inr (nj, gd) ↦ (d, gd, refl, refl, refl)
      ])
]

deliver-SameTable : (id : Bytes) (o : Outbox) → SameTable o.clients (deliver id o).clients
unfolding deliver
deliver-SameTable id o = elim (Option-cases (find_client_by_id id o.clients)) [
  | inl h ↦ rw (h, deliver) (SameTable-refl o.clients)
  | inr (i, h) ↦
      let (c, at, same) = client_found id o.clients i h in
      rw (h, deliver, at) (deliver_at-SameTable i o c at)
]

deliver_all-SameTable :
    (ids : List Bytes) (o : Outbox) → SameTable o.clients (deliver_all ids o).clients
unfolding deliver_all
deliver_all-SameTable [] o = SameTable-refl o.clients
deliver_all-SameTable (id ∷ ids) o =
    SameTable-trans o.clients (deliver id o).clients (deliver_all ids (deliver id o)).clients
      (deliver-SameTable id o) (deliver_all-SameTable ids (deliver id o))

reset_sent-SameTable : (clients : List Client) → SameTable clients (reset_sent clients)
reset_sent-SameTable clients j d h =
    let (c, at, e) = reset_at clients j d h in
    (c, at, ap (λ x. x.id) e, ap (λ x. x.sockfd) e, ap (λ x. x.connected) e)

pub publish-SameTable :
    (topic : Bytes) (topics : List TopicEntry) (clients : List Client)
    → SameTable clients (publish topic topics clients).clients
unfolding publish
publish-SameTable topic topics clients =
    let start : Outbox = record { clients = reset_sent clients; sent = [] } in
    rw (publish_from-matching_ids topic topics start) (
      SameTable-trans clients (reset_sent clients) _ (reset_sent-SameTable clients)
        (deliver_all-SameTable (matching_ids topic topics) start))

pub SameTable-WellFormed :
    (clients clients' : List Client)
    → SameTable clients clients'
    → WellFormed clients
    → WellFormed clients'
SameTable-WellFormed clients clients' f w = record {
  ids_differ = λ i j c d hc hd e.
      let (c0, ac, c1, c2, c3) = f i c hc in
      let (d0, ad, d1, d2, d3) = f j d hd in w.ids_differ i j c0 d0 ac ad (sym c1 ∙ e ∙ d1);
  fds_differ = λ i j c d fd hc hd ec ed.
      let (c0, ac, c1, c2, c3) = f i c hc in
      let (d0, ad, d1, d2, d3) = f j d hd in
      w.fds_differ i j c0 d0 fd ac ad (sym c2 ∙ ec) (sym d2 ∙ ed);
  states = λ i c hc. let (c0, ac, c1, c2, c3) = f i c hc in rw (c3, c2) (w.states i c0 ac);
}
