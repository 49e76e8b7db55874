-- ===== src/Broker/Server/Connects.antt =====
-- A connection that gives an id: it is registered, or refused and closed.
use teme_pcom.Prelude.{
  Bytes, List, [], ap, arith, get_elem?, get_elem?-set-cases, get_elem?-snoc-cases, inl, inr,
  length, none, refl, set, some, sym, take_all, ℕ, ◌++◌, ◌<◌, ◌∙◌, ◌∷◌, ◌≡◌, ◌⊎◌,
}
use teme_pcom.Broker.Server.{same_id_error, remove_at, running, on_connect, PollFd, Server}
use teme_pcom.Broker.Clients.{
  past_the_table, already_connected, fresh_client, add_or_reconnect_client, added,
  find_client_by_fd, max_id_len, Added, Client,
}
use teme_pcom.Broker.Server.Tables.{IsUnused-fd, Inv}
use teme_pcom.Broker.Clients.Registry.{
  Registration, overrun, refused, old_slot, connected_as, add_or_reconnect_client-WellFormed,
  new_slot, add_or_reconnect_client-Registration, IsUnused,
}
use teme_pcom.Broker.Server.Sockets.{count-at}
use teme_pcom.Broker.Clients.Sessions.{add_or_reconnect_client-refused_iff}
use teme_pcom.Broker.Server.Requests.{removed-polled, removed-distinct}

-- The clients of the table after a registration: the old ones on their sockets, and the new one.
registered-cases :
    {id : Bytes} {fd : ℕ} {clients clients' : List Client} {k : ℕ} {r : Added}
    → length id < max_id_len
    → Registration id fd clients r
    → r ≡ added clients' k
    → (j : ℕ) (d : Client) → get_elem? clients' j ≡ some d
    → ((d.id ≡ id) × (d.sockfd ≡ some fd)) ⊎ (get_elem? clients j ≡ some d)
registered-cases {id} {fd} {clients} {clients' = ds} short (new_slot unknown room e) h j d hd =
    let c' : Client = connected_as (fresh_client id) fd in
    let e' : ds ≡ clients ++ c' ∷ [] = cc in
    elim (get_elem?-snoc-cases clients c' j d (ap (λ l. get_elem? l j) (sym e') ∙ hd)) [
      | inl (ej, ed) ↦
          inl (ap (λ x. x.id) ed ∙ take_all max_id_len id (omega arith), ap (λ x. x.sockfd) ed)
      | inr old ↦ inr old
    ]
registered-cases {id} {fd} {clients} {clients' = ds} short (old_slot i c known at same free e) h j d
      hd =
    let c' : Client = connected_as c fd in
    let e' : ds ≡ set clients i c' = cc in
    elim (get_elem?-set-cases clients i j c' d (ap (λ l. get_elem? l j) (sym e') ∙ hd)) [
      | inl (ej, ed) ↦ inl (ap (λ x. x.id) ed ∙ same, ap (λ x. x.sockfd) ed)
      | inr (ne, old) ↦ inr old
    ]
registered-cases short (refused i c known at same busy e) h j d hd = absurd (cc)
registered-cases short (overrun unknown full e) h j d hd = absurd (cc)

pub on_connect-Inv :
    (id : Bytes) (i : ℕ) (s s' : Server) (q : PollFd)
    → Inv s
    → get_elem? s.poll_fds i ≡ some q
    → length id < max_id_len
    → find_client_by_fd q.fd s.clients ≡ none
    → on_connect id i q.fd s ≡ running s'
    → Inv s'
unfolding on_connect
on_connect-Inv id i s s' q v slot short free h = go (add_or_reconnect_client id q.fd s.clients) refl
  where
    unused : IsUnused q.fd s.clients
    unused = IsUnused-fd q.fd s.clients free

    go : (r : Added) → add_or_reconnect_client id q.fd s.clients ≡ r → Inv s'
    go (added clients k) e =
        let eq : s' ≡ record s { clients = clients } = ground arith in
        let cases =
          registered-cases short (add_or_reconnect_client-Registration id q.fd s.clients) e in
        rw eq (record {
          table =
              add_or_reconnect_client-WellFormed id q.fd s.clients clients k v.table short unused e;
          short_ids = λ j d hd. elim (cases j d hd) [
            | inl (same, sock) ↦ rw same short
            | inr old ↦ v.short_ids j d old
          ];
          distinct = v.distinct;
          polled = λ j d fd' hd sd. elim (cases j d hd) [
            | inl (same, sock) ↦
                let fd'≡ : fd' ≡ q.fd = cc in
                rw fd'≡ (omega (arith, v.distinct q.fd, count-at s.poll_fds i q slot))
            | inr old ↦ v.polled j d fd' old sd
          ];
          lists = v.lists;
        })
    go (already_connected clients) e =
        let same : clients ≡ s.clients =
          ((add_or_reconnect_client-refused_iff id q.fd s.clients clients).0 e).1 in
        let eq : s' ≡ record s {
          poll_fds = remove_at i s.poll_fds;
          clients = s.clients;
          sent = s.sent ++ same_id_error q.fd ∷ [];
        } =
          ground arith in
        rw eq (record {
          table = v.table;
          short_ids = v.short_ids;
          distinct = λ a. removed-distinct s i q a v slot;
          polled = λ j d fd' hd sd.
              removed-polled s i q fd' v slot (λ g. unused j d hd (sd ∙ ap some g))
                (v.polled j d fd' hd sd);
          lists = v.lists;
        })
    go past_the_table e = absurd (ground arith)
