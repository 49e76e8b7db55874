-- ===== src/Broker/Stream/Delivery.antt =====
-- What goes out by send_all, and what comes in by recv_all, whatever the sizes of the chunks.
use teme_pcom.Prelude.{
  Bytes, List, [], ap, append-nil, append_assoc, arith, drop, length, length-append, refl, subst,
  suc, sym, take, zero, ℕ, ◌++◌, ◌-◌, ◌∙◌, ◌∷◌, ◌≡◌, ◌≢◌, ◌≤◌,
}
use teme_pcom.Broker.Stream.{
  SendCall, RecvCall, SendResult, send_from, send_all, recv_from, recv_all, took, gave, sent_all,
  received_all, send_failed, send_zero, send_error, send_stopped, send_waits,
}

-- The bytes that went out are the first ones of the message.
abbrev pub Unsent : Bytes → SendResult → Type 0
Unsent message (send_error out) = (rest : Bytes) × (message ≡ out ++ rest)
Unsent message (send_stopped out) = (rest : Bytes) × (message ≡ out ++ rest)
Unsent message (send_waits out) = (rest : Bytes) × (message ≡ out ++ rest)
Unsent message (sent_all out calls) = message ≡ out

take-drop : (n : ℕ) (s : Bytes) → s ≡ take n s ++ drop n s
take-drop zero s = refl
take-drop (suc n) [] = refl
take-drop (suc n) (c ∷ s) = ap (λ t. c ∷ t) (take-drop n s)

send_from-Unsent :
    (calls : List SendCall) (out rest : Bytes) → Unsent (out ++ rest) (send_from calls out rest)
unfolding send_from
send_from-Unsent calls out [] = append-nil out
send_from-Unsent [] out (c ∷ rest) = (c ∷ rest, refl)
send_from-Unsent (send_failed ∷ calls) out (c ∷ rest) = (c ∷ rest, refl)
send_from-Unsent (send_zero ∷ calls) out (c ∷ rest) = (c ∷ rest, refl)
send_from-Unsent (took rc ∷ calls) out (c ∷ rest) =
    let ih = send_from-Unsent calls (out ++ take rc (c ∷ rest)) (drop rc (c ∷ rest)) in
    subst (λ m. Unsent m (send_from calls (out ++ take rc (c ∷ rest)) (drop rc (c ∷ rest))))
      (append_assoc out (take rc (c ∷ rest)) (drop rc (c ∷ rest))
        ∙ ap (λ t. out ++ t) (sym (take-drop rc (c ∷ rest))))
      ih

-- However send cuts the message up, and wherever it fails, the bytes that went out are the first
-- ones of the message in their order, and all of them if send_all returns its length.
send_all-Unsent :
    (calls : List SendCall) (message : Bytes) → Unsent message (send_all calls message)
unfolding send_all
send_all-Unsent calls message = send_from-Unsent calls [] message

-- What the calls of recv take off the stream, when n bytes are asked for: each gives a first part
-- of the stream that is not empty and not longer than what remains.
pub data Delivers : ℕ → Bytes → List RecvCall → Bytes → Type 0 where
  all_there : {stream : Bytes} → Delivers zero stream [] stream
  chunk :
      {n : ℕ} {stream later : Bytes} {calls : List RecvCall} (c : Bytes)
      → c ≢ []
      → length c ≤ suc n
      → Delivers (suc n - length c) stream calls later
      → Delivers (suc n) (c ++ stream) (gave c ∷ calls) later

recv_from-Delivers :
    {n : ℕ} {stream later : Bytes} {calls : List RecvCall} (buffer : Bytes) (more : List RecvCall)
    → Delivers n stream calls later
    → (bytes : Bytes) × (recv_from (calls ++ more) buffer n ≡ received_all (buffer ++ bytes) more)
      × (stream ≡ bytes ++ later)
      × (length bytes ≡ n)
unfolding recv_from
recv_from-Delivers buffer more all_there =
    ([], ap (λ b. received_all b more) (sym (append-nil buffer)), refl, refl)
recv_from-Delivers {n = suc n} {later = later} buffer more (chunk {stream = s} c ne le d) =
    let (bytes, run, split, len) = recv_from-Delivers (buffer ++ c) more d in
    (
      c ++ bytes,
      run ∙ ap (λ b. received_all b more) (append_assoc buffer c bytes),
      ap (λ t. c ++ t) split ∙ sym (append_assoc c bytes later),
      omega (arith, length-append c bytes),
    )

append_inj :
    (xs ys us vs : Bytes) → xs ++ us ≡ ys ++ vs → length xs ≡ length ys → (xs ≡ ys) × (us ≡ vs)
append_inj [] [] us vs e len = (refl, e)
append_inj [] (y ∷ ys) us vs e len = absurd (omega arith)
append_inj (x ∷ xs) [] us vs e len = absurd (omega arith)
append_inj (x ∷ xs) (y ∷ ys) us vs e len =
    let (tails, rest) = append_inj xs ys us vs (cc) (omega arith) in (cc, rest)

-- A message that send_all has sent whole, on a stream that goes on with other bytes, is what
-- recv_all of its length returns, however the stream is cut up on the way, and the other bytes stay
-- on the stream for the next call.
pub recv_all-send_all :
    (message out later left : Bytes) (sends later_sends : List SendCall)
    (calls more : List RecvCall)
    → send_all sends message ≡ sent_all out later_sends
    → Delivers (length message) (out ++ later) calls left
    → (recv_all (calls ++ more) (length message) ≡ received_all message more) × (left ≡ later)
unfolding recv_all
recv_all-send_all message out later left sends later_sends calls more sent d =
    let whole : message ≡ out = subst (Unsent message) sent (send_all-Unsent sends message) in
    let (bytes, run, split, len) = recv_from-Delivers [] more d in
    let (same, rest) = append_inj out bytes later left split (ap length (sym whole) ∙ sym len) in
    (run ∙ ap (λ b. received_all b more) (sym (whole ∙ same)), sym rest)
