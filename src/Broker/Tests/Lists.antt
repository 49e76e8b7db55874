-- ===== src/Broker/Tests/Lists.antt =====
-- The broker at concrete inputs: subscriptions and a publication.
use teme_pcom.Prelude.{
  List, [], any, arith, codes, count, false, find_index, refl, some, str_eq, suc, zero, ◌∷◌, ◌≡◌,
}
use teme_pcom.Broker.Tests.{client_one, two_clients, client_two, two_clients-WellFormed}
use teme_pcom.Broker.Clients.Registry.{IsUnused}
use teme_pcom.Broker.Topics.Subscriptions.{subs_of-subscribe, subs_of, times}
use teme_pcom.Broker.Topics.{
  find_topic_index, add_subscriber, update_entry, unsubscribe, subscribe, TopicEntry,
}
use teme_pcom.Broker.Wildcard.{tokens, match_tokens, check_topic_regexp}
use teme_pcom.Broker.Topics.Removal.{unsubscribe-subscribe, times-unsubscribe, NoDuplicates}
use teme_pcom.Broker.Publish.{publish}
use teme_pcom.Broker.Publish.Receivers.{publish_once}

abbrev first_list : List TopicEntry
first_list = (record { topic = codes "upb/+"; subscribers = codes "C1" ∷ [] }) ∷ []

abbrev both_listed : List TopicEntry
both_listed = (record { topic = codes "upb/+"; subscribers = codes "C1" ∷ codes "C2" ∷ [] }) ∷ []

lists_second : subscribe (codes "upb/+") (codes "C2") first_list ≡ some both_listed
unfolding subscribe update_entry add_subscriber find_topic_index find_index str_eq
lists_second = refl

not_listed_yet : any (λ s. str_eq s (codes "C2")) (subs_of (codes "upb/+") first_list) ≡ false
unfolding subs_of str_eq
not_listed_yet = refl

first_list-NoDuplicates : NoDuplicates first_list
unfolding subs_of
first_list-NoDuplicates t j = ground arith

subs_of-subscribe_example : subs_of (codes "upb/+") both_listed ≡ codes "C1" ∷ codes "C2" ∷ []
unfolding subs_of str_eq
subs_of-subscribe_example =
    subs_of-subscribe (codes "upb/+") (codes "C2") (codes "upb/+") first_list both_listed
      (omega arith) (omega arith) lists_second

times-unsubscribe_example :
    times
      (codes "C1")
      (subs_of (codes "upb/+") (unsubscribe (codes "upb/+") (codes "C1") both_listed))
    ≡ 0
unfolding subs_of str_eq
times-unsubscribe_example =
    times-unsubscribe (codes "upb/+") (codes "C1") (codes "upb/+") (codes "C1") both_listed

unsubscribe-subscribe_example :
    times
      (codes "C1")
      (subs_of (codes "upb/+") (unsubscribe (codes "upb/+") (codes "C2") both_listed))
    ≡ times (codes "C1") (subs_of (codes "upb/+") first_list)
unsubscribe-subscribe_example =
    unsubscribe-subscribe (codes "upb/+") (codes "C2") (codes "upb/+") (codes "C1") first_list
      both_listed (omega arith) (omega arith) not_listed_yet lists_second

publish_once_example : count 5 (publish (codes "upb/ec") both_listed two_clients).sent ≡ 1
unfolding check_topic_regexp match_tokens tokens str_eq
publish_once_example =
    publish_once (codes "upb/ec") both_listed two_clients 1 5 client_two two_clients-WellFormed refl
      refl refl

IsUnused-nine : IsUnused 9 two_clients
IsUnused-nine zero c h = let e : client_one ≡ c = ground arith in rw (← e) (λ q. ground arith)
IsUnused-nine (suc zero) c h = let e : client_two ≡ c = ground arith in rw (← e) (λ q. ground arith)
IsUnused-nine (suc (suc i)) c h = absurd (cc)
