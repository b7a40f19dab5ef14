-- ===== src/Link/Receiving.antt =====
-- The step `recv` and the invariant of a link.
use ibv.Prelude.{
  ℕ, ◌+◌, ◌≤◌, ◌≡◌, refl, ap, ◌∙◌, some, List, [], ◌∷◌, ◌++◌, append_assoc, map, length, All,
  All-append,
}
use ibv.Memory.{load}
use ibv.Ring.{place, advance}
use ibv.Ring.Moves.{advance_all-append}
use ibv.Mr.RecvBufs.{read}
use ibv.Mr.RecvBufs.Reading.{read-place, read-IsValid}
use ibv.Link.{Link}
use ibv.Link.Invariant.{join, Stored, lengths, Inv}

pub move_one : {A : Type 0} (p h t : List A) (n : A) → p ++ (h ++ n ∷ []) ++ t ≡ p ++ h ++ n ∷ t
move_one p h t n = simp append_assoc

module _ {Rx : Type 0} {left right : ℕ} {l : Link Rx} (inv : Inv left right l) where
  -- A held message fits in the buffer.
  pub fits_buffer : (n : ℕ) → left + n ≤ right → l.receiver.left + n ≤ l.receiver.right
  fits_buffer n small = rw (inv.ends.2, inv.ends.3) small

  -- `recv_msg` answers with the oldest message of the wire, as it was sent, and its `index` goes on
  -- as the ring does.
  pub read-wire :
      (bytes : List ℕ) (w : List (List ℕ))
      → l.wire ≡ bytes ∷ w
      → read l.mem l.receiver (length bytes) ≡ (
        some bytes,
        record l.receiver { index = advance left right l.receiver.index (length bytes) },
      )
  read-wire bytes w e =
      read-place l.mem l.receiver (length bytes) inv.agrees.valid
        (fits_buffer (length bytes) small.0)
      ∙ rw (inv.ends.2, inv.ends.3, head.0) refl
    where
      head :
          (load l.mem (place left right l.receiver.index (length bytes)) (length bytes) ≡ bytes)
          × Stored left right l.mem (advance left right l.receiver.index (length bytes)) w
      head = rw e at inv.stored

      small : (left + length bytes ≤ right) × All (λ b. left + length b ≤ right) w
      small = rw e at inv.small_wire

  pub recv-Inv :
      (bytes : List ℕ) (w : List (List ℕ))
      → l.wire ≡ bytes ∷ w
      → Inv left right (record l {
        receiver = (read l.mem l.receiver (length bytes)).1;
        wire = w;
        held = l.held ++ length bytes ∷ [];
        got = l.got ++ (read l.mem l.receiver (length bytes)).0 ∷ [];
      })
  recv-Inv bytes w e =
      rw (ap (λ x. x.0) what, ap (λ x. x.1) what)
        (record {
          batches = inv.batches;
          un = inv.un;
          final = inv.final;
          ends = inv.ends;
          layout =
              rw (move_one (join inv.batches ++ inv.un) l.held (lengths w) (length bytes))
                (rw e at inv.layout);
          reports = inv.reports;
          agrees = record {
            valid = rw (ap (λ x. x.1) what) at (
                read-IsValid l.mem l.receiver (length bytes) inv.agrees.valid
                  (fits_buffer (length bytes) small.0));
            total = inv.agrees.total;
            ends = inv.agrees.ends;
            mode = inv.agrees.mode;
          };
          reads = rw (advance_all-append, inv.reads) refl;
          stored = (rw e at inv.stored).1;
          small_held =
              All-append (λ n. left + n ≤ right) l.held (length bytes ∷ []) inv.small_held
                (small.0, tt);
          small_wire = small.1;
          received = append_assoc l.got (some bytes ∷ []) (map some w) ∙ (rw e at inv.received);
        })
    where
      what : read l.mem l.receiver (length bytes) ≡ (
        some bytes,
        record l.receiver { index = advance left right l.receiver.index (length bytes) },
      )
      what = read-wire bytes w e

      small : (left + length bytes ≤ right) × All (λ b. left + length b ≤ right) w
      small = rw e at inv.small_wire
