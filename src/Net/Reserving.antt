-- ===== src/Net/Reserving.antt =====
-- The first stage of `send_msg` beside the messages that are under way (src/connection/conn.rs,
-- lines 88 to 100; src/types/mr.rs, lines 242 to 271).
use ibv.Prelude.{
  ℕ, ◌<◌, ◌≡◌, refl, sym, ◌∙◌, true, inl, inr, List, [], ◌∷◌, ◌++◌, arith, u32_mod, All,
  append_assoc, some, as_u32, snoc-injective,
}
use ibv.Channel.{Mpsc}
use ibv.Channel.Cases.{try_send-cases}
use ibv.Verbs.{Verbs}
use ibv.Ring.{Apart, place, pieces}
use ibv.Ring.Moves.{advance_all-Layout, Layout-bounds}
use ibv.Mr.Region.{LocalBuf}
use ibv.Mr.SendBufs
use ibv.Mr.SendBufs.{
  SendBuffer, Entry, wait_wrap, wait_here, take_buffer, alloc, entries, sizes, Inv,
}
use ibv.Mr.SendBufs.Waiting.{quiet}
use ibv.Mr.SendBufs.Alloc.{Safe, alloc-Safe}
use ibv.Conn.{ConnOf, total_len, copy_slices, reserve}
use ibv.Conn.Copying.{load-copy_slices}
use ibv.Conn.Sending.{reserve-some}
use ibv.Net.{Ticket}
use ibv.Net.Outgoing.{Holds, Holds-All, Holds-load, Holds-newer}

module _ (Q : Mpsc Entry) where
  -- What a call of `alloc` that does not wait does.
  record Added (s : SendBuffer Q.Chan) (flag n : ℕ) (x : LocalBuf × ℕ × SendBuffer Q.Chan)
      : Type 0 where
    addr : x.0.addr ≡ place s.left s.right s.index n
    added : entries Q x.2 ≡ entries Q s ++ (flag, n) ∷ []
    done : x.2.done ≡ s.done
    left : x.2.left ≡ s.left
    right : x.2.right ≡ s.right
    others : (f : ℕ) → s.flags f ≡ true → x.2.flags f ≡ true

  alloc-Added :
      (s : SendBuffer Q.Chan) (flag n : ℕ) {x : LocalBuf × ℕ × SendBuffer Q.Chan}
      → Inv Q s
      → n < u32_mod
      → alloc Q (quiet ([] ∷ [])) s flag n ≡ some x
      → Added s flag n x
  unfolding alloc wait_wrap wait_here take_buffer
  alloc-Added s flag n v short h =
      let bounds = Layout-bounds v.layout in
      elim (try_send-cases Q s.to_release (flag, n)) [
        | inl full ↦ ground arith
        | inr (d, sent, q) ↦ record {
          addr = ground arith;
          added = ground (
            arith,
            q,
            append_assoc (SendBufs.held Q s.holding) (Q.queued s.to_release) ((flag, n) ∷ []),
          );
          done = ground arith;
          left = ground arith;
          right = ground arith;
          others = λ f used. ground arith;
        }
      ]

module _ (V : Verbs) (Q : Mpsc (ℕ × ℕ)) (QE : Mpsc Entry) (QR : Mpsc ℕ) where
  abbrev Self : Type 0
  Self = ConnOf V Q QE QR

  -- What `reserve` does to the messages under way, and the one that it adds.
  pub record Reserved (c : Self) (flag : ℕ) (msg : List (List ℕ)) (l : LocalBuf) (wr_id : ℕ)
      (c' : Self) : Type 0 where
    pub valid : Inv QE c'.send_buf
    pub id : wr_id ≡ flag
    pub dev : c'.dev ≡ c.dev
    pub allocator : c'.allocator ≡ c.allocator
    pub old : (t : Ticket) → Holds QE c.send_buf c.mem t → Holds QE c'.send_buf c'.mem t
    pub new : Holds QE c'.send_buf c'.mem (record { local_buf = l; flag = flag; msg = msg })

  reserved :
      (c : Self) (flag : ℕ) (msg : List (List ℕ)) (l : LocalBuf) (wr_id : ℕ)
      (s : SendBuffer QE.Chan)
      → Inv QE c.send_buf
      → total_len msg < u32_mod
      → Safe QE c.send_buf flag (total_len msg) (l, wr_id, s)
      → Added QE c.send_buf flag (total_len msg) (l, wr_id, s)
      → Reserved c flag msg l wr_id (record c { send_buf = s; mem = copy_slices c.mem l.addr msg })
  reserved c flag msg l wr_id s v short (valid, id, used, size, low, high, (before, newest, apart))
        a =
      let same : before ≡ entries QE c.send_buf =
        snoc-injective before (entries QE c.send_buf) _ _ (sym newest ∙ a.added) in
      let clear : All (Apart (record { start = l.addr; size = total_len msg })) (
          pieces c.send_buf.left c.send_buf.right c.send_buf.done
            (sizes QE (entries QE c.send_buf))) =
        rw (← same, ← a.done) apart in
      let (content, outside) = load-copy_slices c.mem l.addr msg (omega arith) in
      record {
        valid = valid;
        id = id;
        dev = refl;
        allocator = refl;
        old = λ t h.
            Holds-newer QE
              (Holds-load QE h (copy_slices c.mem l.addr msg) (
                outside t.local_buf.addr t.local_buf.length
                  (Holds-All QE h (Apart (record { start = l.addr; size = total_len msg })) clear)))
              s (flag, total_len msg) a.added a.done a.left a.right (a.others t.flag h.used);
        new = record {
          before = entries QE c.send_buf;
          after = [];
          stands = rw size a.added;
          addr =
              rw
                (
                  size,
                  a.addr,
                  a.done,
                  a.left,
                  a.right,
                  advance_all-Layout (sizes QE (entries QE c.send_buf)) v.layout,
                )
                refl;
          used = used;
          content = rw size content;
          size = size;
          short = short;
        };
      }

  -- A call that does not wait keeps the messages under way, and adds its own.
  pub reserve-Reserved :
      (c : Self) (flag : ℕ) (msg : List (List ℕ)) (l : LocalBuf) (wr_id : ℕ) {c' : Self}
      → Inv QE c.send_buf
      → total_len msg < u32_mod
      → reserve V Q QE QR (quiet ([] ∷ [])) c flag msg ≡ some (l, wr_id, c')
      → Reserved c flag msg l wr_id c'
  reserve-Reserved c flag msg l wr_id v short h =
      let (s, given, e) = reserve-some V Q QE QR c flag msg (quiet ([] ∷ [])) h in
      let whole : as_u32 (total_len msg) ≡ total_len msg = omega (arith, short) in
      let got : alloc QE (quiet ([] ∷ [])) c.send_buf flag (total_len msg) ≡ some (l, wr_id, s) =
        rw whole at given in
      rw e (
        reserved c flag msg l wr_id s v short
          (alloc-Safe QE c.send_buf flag (total_len msg) v short ([] ∷ []) got)
          (alloc-Added QE c.send_buf flag (total_len msg) v short got))
