-- ===== src/Broker/Stream.antt =====
-- Tema_2/common.c: send_all and recv_all. What the successive calls of send and recv return is a
-- list; where it ends, the loop waits in the call. A call never takes or gives more than it is asked.
pub mod Delivery
use teme_pcom.Prelude.{Bytes, List, [], drop, length, suc, take, zero, ℕ, ◌++◌, ◌+◌, ◌-◌, ◌∷◌}

-- What one call of send or recv does: -1, 0, or bytes that it took or gave.
pub data SendCall : Type 0 where
  send_failed : SendCall
  send_zero : SendCall
  took : ℕ → SendCall

pub data RecvCall : Type 0 where
  recv_failed : RecvCall
  peer_closed : RecvCall
  gave : Bytes → RecvCall

-- What send_all returns, with the bytes that went out; the list is what later calls return.
pub data SendResult : Type 0 where
  send_error : Bytes → SendResult
  send_stopped : Bytes → SendResult
  send_waits : Bytes → SendResult
  sent_all : Bytes → List SendCall → SendResult

-- What recv_all returns, with the buffer.
pub data RecvResult : Type 0 where
  recv_error : RecvResult
  recv_closed : RecvResult
  recv_waits : RecvResult
  received_all : Bytes → List RecvCall → RecvResult

-- The loop, with the bytes that went out and those that remain.
unfoldable pub send_from : List SendCall → Bytes → Bytes → SendResult
send_from calls out [] = sent_all out calls
send_from [] out (c ∷ rest) = send_waits out
send_from (send_failed ∷ calls) out (c ∷ rest) = send_error out
send_from (send_zero ∷ calls) out (c ∷ rest) = send_stopped out
send_from (took rc ∷ calls) out (c ∷ rest) =
    send_from calls (out ++ take rc (c ∷ rest)) (drop rc (c ∷ rest))

unfoldable pub send_all : List SendCall → Bytes → SendResult
send_all calls message = send_from calls [] message

-- The loop, with the bytes in the buffer and the number of those that remain.
unfoldable pub recv_from : List RecvCall → Bytes → ℕ → RecvResult
recv_from calls buffer zero = received_all buffer calls
recv_from [] buffer (suc n) = recv_waits
recv_from (recv_failed ∷ calls) buffer (suc n) = recv_error
recv_from (peer_closed ∷ calls) buffer (suc n) = recv_closed
recv_from (gave chunk ∷ calls) buffer (suc n) =
    recv_from calls (buffer ++ chunk) (suc n - length chunk)

unfoldable pub recv_all : List RecvCall → ℕ → RecvResult
recv_all calls len = recv_from calls [] len
