-- ===== src/Conn/Counting.antt =====
-- The counter `sending` (src/connection/conn.rs, lines 102 to 107 and 122): the messages that this
-- side has sent, less those that it has received.
use ibv.Prelude.{
  ℕ, suc, ◌+◌, ◌-◌, ◌%◌, ◌^◌, ◌≤◌, ◌<◌, ◌≡◌, ◌≢◌, ◌⊎◌, inl, inr, true, false, Option, none, some,
  List, arith, u32_mod, add32, ℕ_discrete,
}
use ibv.Defaults.{max_sending}
use ibv.Channel.{Mpsc}
use ibv.Verbs.{Verbs}
use ibv.Mr.Region.{LocalBuf}
use ibv.Mr.RemoteBufs
use ibv.Mr.SendBufs
use ibv.Memory.{Memory}
use ibv.Mr.SendBufs.{SendBuffer, Entry}
use ibv.Conn.{ConnOf, too_many, reserve, admit, post, recv_msg, release}

module _ (V : Verbs) (Q : Mpsc (ℕ × ℕ)) (QE : Mpsc Entry) (QR : Mpsc ℕ) where
  abbrev Self : Type 0
  Self = ConnOf V Q QE QR

  -- The state `c` after calls from a fresh connection, `a` of which have admitted a message for
  -- sending and `b` of which have received one, in any order and with any waits between them.
  pub data History : ℕ → ℕ → Self → Type 0 where
    fresh : (c : Self) → c.sending ≡ 0 → History 0 0 c
    reserved :
        {a b : ℕ} {c c' : Self} (ts : List SendBufs.Turn) (flag : ℕ) (msg : List (List ℕ))
        (l : LocalBuf) (wr_id : ℕ)
        → History a b c
        → reserve V Q QE QR ts c flag msg ≡ some (l, wr_id, c')
        → History a b c'
    admitted :
        {a b : ℕ} {c c' : Self} (imm : ℕ)
        → History a b c
        → admit V Q QE QR c ≡ some (imm, c')
        → History (suc a) b c'
    posted :
        {a b : ℕ} {c c' : Self} (ts : List RemoteBufs.Turn) (l : LocalBuf) (wr_id imm : ℕ)
        (msg : List (List ℕ))
        → History a b c
        → post V Q QE QR ts c l wr_id imm msg ≡ some c'
        → History a b c'
    received :
        {a b : ℕ} {c c' : Self} (bytes : Option (List ℕ))
        → History a b c
        → recv_msg V Q QE QR c ≡ some (bytes, c')
        → History a (suc b) c'
    released :
        {a b : ℕ} {c c' : Self} (len : ℕ)
        → History a b c
        → release V Q QE QR c len ≡ some c'
        → History a b c'
    -- the polling task, the release task and the network card
    others :
        {a b : ℕ} {c : Self} (dev : V.Dev) (rx : Q.Chan) (s : SendBuffer QE.Chan) (mem : Memory)
        → History a b c
        → History a b (record c {
          dev = dev;
          recv_buf = record c.recv_buf { rx = rx };
          send_buf = s;
          mem = mem;
        })

  module _ (c : Self) {c' : Self} where
    reserve-sending :
        (ts : List SendBufs.Turn) (flag : ℕ) (msg : List (List ℕ)) {l : LocalBuf} {wr_id : ℕ}
        → reserve V Q QE QR ts c flag msg ≡ some (l, wr_id, c')
        → c'.sending ≡ c.sending
    unfolding reserve
    reserve-sending ts flag msg h = ground arith

    admit-sending :
        {imm : ℕ}
        → admit V Q QE QR c ≡ some (imm, c')
        → (too_many c.sending ≡ false) × (c'.sending ≡ add32 c.sending 1)
    unfolding admit
    admit-sending h = ground arith

    post-sending :
        (ts : List RemoteBufs.Turn) (l : LocalBuf) (wr_id imm : ℕ) (msg : List (List ℕ))
        → post V Q QE QR ts c l wr_id imm msg ≡ some c'
        → c'.sending ≡ c.sending
    unfolding post
    post-sending ts l wr_id imm msg h = ground arith

    recv_msg-sending :
        {bytes : Option (List ℕ)}
        → recv_msg V Q QE QR c ≡ some (bytes, c')
        → c'.sending ≡ add32 c.sending (u32_mod - 1)
    unfolding recv_msg
    recv_msg-sending h = ground arith

    release-sending : (len : ℕ) → release V Q QE QR c len ≡ some c' → c'.sending ≡ c.sending
    unfolding release
    release-sending len h = ground arith

  Count : ℕ → ℕ → ℕ → Type 0
  Count a b s = (s < u32_mod) × ((s + b) % u32_mod ≡ a % u32_mod)

  History-Count : {a b : ℕ} {c : Self} → History a b c → Count a b c.sending
  unfolding Count
  History-Count (fresh c e) = omega (arith, e)
  History-Count (reserved {c = c} ts flag msg l wr_id h e) =
      rw (reserve-sending c ts flag msg e) (History-Count h)
  History-Count (admitted {c = c} imm h e) =
      let (_, s) = admit-sending c e in rw s (omega (arith, History-Count h))
  History-Count (posted {c = c} ts l wr_id imm msg h e) =
      rw (post-sending c ts l wr_id imm msg e) (History-Count h)
  History-Count (received {c = c} bytes h e) =
      rw (recv_msg-sending c e) (omega (arith, History-Count h))
  History-Count (released {c = c} len h e) = rw (release-sending c len e) (History-Count h)
  History-Count (others dev rx s mem h) = History-Count h

  admits :
      {a b : ℕ} (s : ℕ)
      → Count a b s
      → b < 2 ^ 31
      → a ≤ b + max_sending
      → too_many s ≡ false
      → a < b + max_sending
  unfolding too_many Count
  admits s n few le free = ground arith

  -- As long as it has received fewer than 2 ^ 31 messages, a side has at most `MAX_SENDING` more
  -- messages admitted than received, in any order of its calls.
  pub sent-bound : {a b : ℕ} {c : Self} → History a b c → b < 2 ^ 31 → a ≤ b + max_sending
  sent-bound (fresh c e) few = omega arith
  sent-bound (reserved ts flag msg l wr_id h e) few = sent-bound h few
  sent-bound (admitted {c = c} imm h e) few =
      omega (arith, admits c.sending (History-Count h) few (sent-bound h few) (admit-sending c e).0)
  sent-bound (posted ts l wr_id imm msg h e) few = sent-bound h few
  sent-bound (received bytes h e) few = omega (arith, sent-bound h (omega arith))
  sent-bound (released len h e) few = sent-bound h few
  sent-bound (others dev rx s mem h) few = sent-bound h few

  module _ {a b : ℕ} {c : Self} (h : History a b c) where
    free-Count : (s : ℕ) → Count a b s → b < 2 ^ 31 → a < b + max_sending → too_many s ≡ false
    unfolding too_many Count
    free-Count s n few less = ground arith

    full-Count : (s : ℕ) → Count a b s → a ≡ b + max_sending → too_many s ≡ true
    unfolding too_many Count
    full-Count s n e = ground arith

    wrapped-Count :
        (s : ℕ) → Count a b s → a + 2 ^ 31 < b → b + max_sending ≤ a + u32_mod → too_many s ≡ true
    unfolding too_many Count
    wrapped-Count s n over under = ground arith

    blocked : too_many c.sending ≡ true → admit V Q QE QR c ≡ none
    unfolding admit
    blocked full = ground arith

    -- With fewer than 2 ^ 31 messages received and the lock free, a message is admitted exactly
    -- where fewer than `MAX_SENDING` more were admitted than received.
    pub admit-limit :
        b < 2 ^ 31
        → c.lock ≡ false
        → ((a < b + max_sending) × (admit V Q QE QR c ≢ none))
          ⊎ ((a ≡ b + max_sending) × (admit V Q QE QR c ≡ none))
    unfolding admit
    admit-limit few free = elim (ℕ_discrete a (b + max_sending)) [
      | yes e ↦ inr (e, blocked (full-Count c.sending (History-Count h) e))
      | no ne ↦
          let less : a < b + max_sending = omega (arith, sent-bound h few) in
          inl (less, ground (arith, free-Count c.sending (History-Count h) few less))
    ]

    -- With more than 2 ^ 31 messages received over those admitted, and no more than 2 ^ 32 less
    -- `MAX_SENDING`, the counter has gone round, and no message is admitted.
    pub admit-wrapped : a + 2 ^ 31 < b → b + max_sending ≤ a + u32_mod → admit V Q QE QR c ≡ none
    admit-wrapped over under = blocked (wrapped-Count c.sending (History-Count h) over under)
