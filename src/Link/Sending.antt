-- ===== src/Link/Sending.antt =====
-- The step `send` and the invariant of a link.
use mathlib.Core.List.{map-append}
use ibv.Prelude.{
  ℕ, ◌+◌, ◌≤◌, ◌<◌, ◌≡◌, sym, ◌∙◌, some, List, [], ◌∷◌, ◌++◌, append_assoc, map, length, All,
  All-append, u32_mod, arith,
}
use ibv.Memory.{Memory, load, store, load-store_apart, load-store_self}
use ibv.Ring.{Apart, place, advance, advance_all, pieces, Layout, HasRoom}
use ibv.Ring.Moves.{advance_all-append, advance_all-Layout, Layout-bounds, Layout-push}
use ibv.Ring.Overlap.{pieces-suffix, pieces-Apart, place-bounds}
use ibv.Mr.Region.{RemoteBuf}
use ibv.Mr.RemoteBufs
use ibv.Mr.RemoteBufs.{RemoteBufManager, alloc}
use ibv.Mr.RemoteBufs.Waiting.{quiet}
use ibv.Mr.RemoteBufs.Alloc.{Allocated, alloc-at_once}
use ibv.Link.{Link}
use ibv.Link.Invariant.{join, Reports, Stored, lengths, live, Inv}

module _ (left right : ℕ) where
  pub Reports-final :
      (d : ℕ) (bs : List (List ℕ)) (ks : List ℕ) {s : ℕ}
      → Reports left right d bs ks s
      → advance_all left right d (join bs) ≡ s
  Reports-final d [] [] h = h
  Reports-final d [] (k ∷ ks) h = absurd h
  Reports-final d (b ∷ bs) [] h = absurd h
  Reports-final d (b ∷ bs) (k ∷ ks) h =
      advance_all-append left right d b (join bs)
      ∙ rw (← h.1) (Reports-final (advance left right d k) bs ks h.2)

  -- A write apart from the stored messages leaves them.
  Stored-store :
      (mem : Memory) (a : ℕ) (bytes : List ℕ) (pos : ℕ) (w : List (List ℕ))
      → All (Apart (record { start = a; size = length bytes })) (pieces left right pos (lengths w))
      → Stored left right mem pos w
      → Stored left right (store mem a bytes) pos w
  Stored-store mem a bytes pos [] h s = tt
  Stored-store mem a bytes pos (b ∷ w) h s = (
    load-store_apart mem a bytes (place left right pos (length b)) (length b) h.0 ∙ s.0,
    Stored-store mem a bytes (advance left right pos (length b)) w h.1 s.1,
  )

  Stored-append :
      (mem : Memory) (pos : ℕ) (w : List (List ℕ)) (b : List ℕ)
      → Stored left right mem pos w
      → load mem (place left right (advance_all left right pos (lengths w)) (length b)) (length b)
        ≡ b
      → Stored left right mem pos (w ++ b ∷ [])
  Stored-append mem pos [] b s h = (h, tt)
  Stored-append mem pos (c ∷ w) b s h =
      (s.0, Stored-append mem (advance left right pos (length c)) w b s.1 h)

module _ {Rx : Type 0} {left right : ℕ} {l : Link Rx} (inv : Inv left right l) where
  pub sender-IsValid : RemoteBufs.IsValid l.sender
  sender-IsValid = ground (arith, Layout-bounds inv.layout, inv.agrees.valid)

  -- The receiver has released the messages up to its `done` and `released`.
  unreported :
      advance_all left right l.sender.done (join inv.batches ++ inv.un)
      ≡ l.receiver.done + l.receiver.released
  unreported =
      rw
        (
          advance_all-append,
          Reports-final left right l.sender.done inv.batches l.notes inv.reports,
          ← inv.ends.2,
          ← inv.ends.3,
        )
        inv.agrees.ends

  abbrev prefix : List ℕ
  prefix = join inv.batches ++ inv.un ++ l.held

  -- The receiver reads where the released and the held messages end, and the wire ends where the
  -- sender's next message goes.
  pub prefix-index : advance_all left right l.sender.done prefix ≡ l.receiver.index
  prefix-index = rw (advance_all-append, unreported) inv.reads

  pub wire-index : advance_all left right l.receiver.index (lengths l.wire) ≡ l.sender.index
  wire-index =
      rw (← prefix-index, ← advance_all-append)
        (advance_all-Layout (live l inv.batches inv.un) inv.layout)

  -- What an allocation of `n` bytes has to do with the state of the link.
  pub record Written (n : ℕ) (b : RemoteBuf) (m' : RemoteBufManager) : Type 0 where
    pub addr : b.addr ≡ place left right l.sender.index n
    pub ends : (m'.left ≡ left) × (m'.right ≡ right)
    pub done : m'.done ≡ l.sender.done
    pub apart :
        All
          (Apart (record { start = b.addr; size = n }))
          (pieces left right l.sender.done (live l inv.batches inv.un))
    pub layout : Layout left right l.sender.done m'.index (live l inv.batches inv.un ++ n ∷ [])
    pub fits : left + n ≤ right

  pub send-Written :
      (n : ℕ) {b : RemoteBuf} {m' : RemoteBufManager}
      → n < u32_mod
      → alloc (quiet ([] ∷ [])) l.sender n ≡ some (b, m')
      → Written n b m'
  send-Written n {b} {m'} short h = record {
    addr = at_place;
    ends = (a.left ∙ inv.ends.0, a.right ∙ inv.ends.1);
    done = a.done;
    apart = rw at_place (pieces-Apart left right n inv.layout room);
    layout = rw (a.index, inv.ends.0, inv.ends.1) (Layout-push n inv.layout room);
    fits = omega (arith, place-bounds left right n inv.layout room);
  }
    where
      a : Allocated l.sender n l.sender.done b m'
      a = alloc-at_once l.sender n sender-IsValid short h

      room : HasRoom left right l.sender.done l.sender.index n
      room = rw (← inv.ends.0, ← inv.ends.1) a.room

      at_place : b.addr ≡ place left right l.sender.index n
      at_place = rw (← inv.ends.0, ← inv.ends.1) a.addr

  -- The buffer overlaps nothing that is released and not reported, held, or on the wire.
  pub send-Apart :
      (n : ℕ) {b : RemoteBuf} {m' : RemoteBufManager}
      → n < u32_mod
      → alloc (quiet ([] ∷ [])) l.sender n ≡ some (b, m')
      → All
          (Apart (record { start = b.addr; size = n }))
          (pieces left right (l.receiver.done + l.receiver.released) (l.held ++ lengths l.wire))
  send-Apart n {b} short h = rw (← unreported) (
      pieces-suffix left right (Apart (record { start = b.addr; size = n })) l.sender.done
        (join inv.batches ++ inv.un) (l.held ++ lengths l.wire)
        (rw (append_assoc (join inv.batches ++ inv.un) l.held (lengths l.wire)) at
          (send-Written n short h).apart))

  pub send-Inv :
      (bytes : List ℕ) (b : RemoteBuf) (m' : RemoteBufManager)
      → length bytes < u32_mod
      → alloc (quiet ([] ∷ [])) l.sender (length bytes) ≡ some (b, m')
      → Inv left right (record l {
        mem = store l.mem b.addr bytes;
        sender = m';
        wire = l.wire ++ bytes ∷ [];
        sent = l.sent ++ bytes ∷ [];
      })
  send-Inv bytes b m' short h = record {
    batches = inv.batches;
    un = inv.un;
    final = inv.final;
    ends = (w.ends.0, w.ends.1, inv.ends.2, inv.ends.3);
    layout = rw (w.done, map-append, ← append_assoc) w.layout;
    reports = rw w.done inv.reports;
    agrees = inv.agrees;
    reads = inv.reads;
    stored =
        Stored-append left right _ l.receiver.index l.wire bytes
          (Stored-store left right l.mem b.addr bytes l.receiver.index l.wire wire_apart inv.stored)
          (rw (wire-index, ← w.addr) (load-store_self l.mem b.addr bytes));
    small_held = inv.small_held;
    small_wire =
        All-append (λ c. left + length c ≤ right) l.wire (bytes ∷ []) inv.small_wire (w.fits, tt);
    received =
        rw (map-append, map-append, ← inv.received)
          (sym (append_assoc l.got (map some l.wire) (some bytes ∷ [])));
  }
    where
      w : Written (length bytes) b m'
      w = send-Written (length bytes) short h

      wire_apart :
          All
            (Apart (record { start = b.addr; size = length bytes }))
            (pieces left right l.receiver.index (lengths l.wire))
      wire_apart = rw (← prefix-index) (
          pieces-suffix left right (Apart (record { start = b.addr; size = length bytes }))
            l.sender.done prefix (lengths l.wire) w.apart)
