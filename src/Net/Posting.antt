-- ===== src/Net/Posting.antt =====
-- The last stage of `send_msg` and the cards' transfer, beside a link (src/connection/conn.rs, lines
-- 109 to 116).
use mathlib.Core.List.{map-append}
use mathlib.Core.Option.{some-injective}
use ibv.Prelude.{
  ℕ, ◌+◌, ◌<◌, ◌≡◌, refl, sym, ap, ◌∙◌, false, inl, inr, List, [], ◌∷◌, ◌++◌, arith, u32_mod,
  All-remove, some, length, append_assoc, as_u32,
}
use ibv.Channel.{Mpsc}
use ibv.Memory.{Memory, store}
use ibv.Verbs.{Verbs}
use ibv.Ring.{place, advance, advance_all, pieces}
use ibv.Ring.Moves.{advance_all-append}
use ibv.Mr.Region.{Mr, RemoteBuf}
use ibv.Mr.RemoteBufs
use ibv.Mr.RemoteBufs.{RemoteBufManager}
use ibv.Mr.RemoteBufs.Waiting
use ibv.Mr.SendBufs.{Entry}
use ibv.Qp.Requests.{write_request, write_with_imm-posts}
use ibv.Qp.{write_with_imm}
use ibv.Link
use ibv.Link.{Link, Reach, start}
use ibv.Link.Invariant.{lengths}
use ibv.Link.Sending.{wire-index, send-Written}
use ibv.Link.Delivery.{Registered, reached}
use ibv.Conn.{total_len, post}
use ibv.Conn.Copying.{joined, length-joined}
use ibv.Conn.Sending.{post-some}
use ibv.Net.{Net, Side, Posted, Ticket, bytes_of, request}
use ibv.Net.Writes.{apply, apply-append, store-congr}
use ibv.Net.Outgoing.{Holds}
use ibv.Net.Sender.{IsSound-post}
use ibv.Net.Simulation.{Sim, Lands, writes, messages, write_of}

pieces-append :
    (left right pos : ℕ) (ns : List ℕ) (n : ℕ)
    → pieces left right pos (ns ++ n ∷ [])
      ≡ pieces left right pos ns
        ++ record { start = place left right (advance_all left right pos ns) n; size = n } ∷ []
pieces-append left right pos [] n = refl
pieces-append left right pos (m ∷ ns) n =
    ap (λ ps. record { start = place left right pos m; size = m } ∷ ps)
      (pieces-append left right (advance left right pos m) ns n)

module _ (V : Verbs) (Q : Mpsc (ℕ × ℕ)) (QE : Mpsc Entry) (QR : Mpsc ℕ) (mr : Mr) (rx : Q.Chan)
    (mem : Memory) where
  abbrev SimOf : Net V Q QE QR → Link Q.Chan → Type 0
  SimOf = Sim V Q QE QR mr rx mem

  module _ (reg : Registered mr) {n : Net V Q QE QR} {l : Link Q.Chan} (m : SimOf n l) where
    -- The link behind a message.
    abbrev sent_link : List ℕ → RemoteBuf → RemoteBufManager → Link Q.Chan
    sent_link bytes r k = record l {
      mem = store l.mem r.addr bytes;
      sender = k;
      wire = l.wire ++ bytes ∷ [];
      sent = l.sent ++ bytes ∷ [];
    }

    post-Lands :
        (p : Posted) (k : RemoteBufManager)
        → p.remote.addr ≡ place mr.addr (mr.addr + mr.length) l.sender.index (length (bytes_of p))
        → Lands V Q QE QR mr rx mem n.b
            (n.posted ++ p ∷ [])
            n.arrivals
            n.written
            (sent_link (bytes_of p) p.remote k)
    post-Lands p k at = record {
      receiver = m.lands.receiver;
      bytes = λ x low high.
          rw (map-append, apply-append (writes n.posted) (write_of p) n.b.mem)
            (store-congr l.mem (apply (writes n.posted) n.b.mem) p.remote.addr (bytes_of p) x
              (m.lands.bytes x low high));
      wire = rw (map-append, m.lands.wire, append_assoc) refl;
      queued = m.lands.queued;
      placed =
          rw
            (
              map-append,
              map-append,
              map-append,
              map-append,
              pieces-append,
              ends,
              ← at,
              m.lands.placed,
            )
            refl;
    }
      where
        ends :
            let left = mr.addr in
            let right = mr.addr + mr.length in
            advance_all left right
              (advance_all left right l.receiver.index (lengths n.written))
              (lengths (messages n.posted))
            ≡ l.sender.index
        ends =
            rw (← advance_all-append, ← map-append, ← m.lands.wire)
              (wire-index (reached mr rx mem reg m.reach))

    -- The link sends the message.
    pub Sim-post :
        (xs ys : List Ticket) (t : Ticket) (imm : ℕ) (r : RemoteBuf) (k : RemoteBufManager)
        (a' : Side V Q QE QR)
        → n.waiting ≡ xs ++ t ∷ ys
        → RemoteBufs.alloc (Waiting.quiet ([] ∷ [])) n.a.allocator (total_len t.msg) ≡ some (r, k)
        → post V Q QE QR (Waiting.quiet ([] ∷ [])) n.a t.local_buf t.flag imm t.msg ≡ some a'
        → (V.post_send n.a.dev (write_request t.local_buf r imm t.flag)).0 ≡ 0
        → SimOf
            (record n {
              a = a';
              waiting = xs ++ ys;
              posted = n.posted ++ record { ticket = t; remote = r; imm = imm } ∷ [];
              sent = n.sent ++ joined t.msg ∷ [];
            })
            (sent_link (joined t.msg) r k)
    Sim-post xs ys t imm r k a' e given done accepted = record {
      reach = Link.later m.reach (Link.send (joined t.msg) r k short free);
      sends = rw what (record {
        sound = IsSound-post QE m.sends.sound xs ys t p e refl;
        queue = rw (taken, m.sends.queue, map-append) refl;
        allocator = refl;
      });
      lands =
          post-Lands p k
            (send-Written (reached mr rx mem reg m.reach) (length (joined t.msg)) short free).addr;
      logs = record {
        held = m.logs.held;
        notes = m.logs.notes;
        sent = rw m.logs.sent refl;
        got = m.logs.got;
      };
    }
      where
        p : Posted
        p = record { ticket = t; remote = r; imm = imm }

        h : Holds QE n.a.send_buf n.a.mem t
        h =
            (All-remove (Holds QE n.a.send_buf n.a.mem) xs ys t
              (rw e at m.sends.sound.waiting_hold)).0

        short : length (joined t.msg) < u32_mod
        short = omega (arith, length-joined t.msg, h.short)

        free :
            RemoteBufs.alloc (Waiting.quiet ([] ∷ [])) l.sender (length (joined t.msg))
            ≡ some (r, k)
        free = rw (length-joined t.msg, m.sends.allocator) given

        what : a' ≡ record n.a {
          allocator = k;
          dev = write_with_imm V t.local_buf r imm t.flag n.a.dev;
          lock = false;
        }
        what =
            let (r', k', got, eq) =
              post-some V Q QE QR n.a 0 t.msg (Waiting.quiet ([] ∷ [])) n.a t.local_buf t.flag imm
                done in
            let whole : as_u32 (total_len t.msg) ≡ total_len t.msg = omega (arith, h.short) in
            let both : (r', k') ≡ (r, k) = some-injective _ _ (sym got ∙ rw whole given) in
            eq
            ∙ ap
                (λ x. record n.a {
                  allocator = x.1;
                  dev = write_with_imm V t.local_buf x.0 imm t.flag n.a.dev;
                  lock = false;
                })
                both

        taken :
            V.send_queue (write_with_imm V t.local_buf r imm t.flag n.a.dev)
            ≡ V.send_queue n.a.dev ++ request p ∷ []
        taken = elim (write_with_imm-posts V t.local_buf r imm t.flag n.a.dev) [
          | inl (_, q) ↦ q
          | inr (refused, _) ↦ absurd (refused accepted)
        ]
