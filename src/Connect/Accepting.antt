-- ===== src/Connect/Accepting.antt =====
-- The loop of `run` (src/connection/conn.rs, lines 176 to 203): the connections that it hands over,
-- and the owners of the device.
use ibv.Prelude.{
  ℕ, ◌≤◌, ◌≡◌, ◌⊎◌, Bool, true, false, Option, none, some, List, [], ◌∷◌, ◌++◌, map, length,
}
use ibv.Channel.{Mpsc}
use ibv.Verbs.{Verbs}
use ibv.Mr.Region.{IbvMr, IbvAccessFlags, RemoteMr}
use ibv.Mr.SendBufs.{Entry}
use ibv.Wr.{IoResult, ok, err}
use ibv.Qp.Attributes.{EndPoint, QpVerbs, Tcp, Bincode}
use ibv.Conn.{ConnOf}
use ibv.Life.{Host, Heap, Qp, new_cap, clone_device, new_qp}
use ibv.Life.History.{History}
use ibv.Connect.{Places, Serving, going, ended, waits, panics, establish}

module _ (V : Verbs) (W : QpVerbs) (T : Tcp) (E : Bincode EndPoint) (B : Bincode RemoteMr)
    (Q : Mpsc (ℕ × ℕ)) (QE : Mpsc Entry) (QR : Mpsc ℕ) (data_path : W.Dev → V.Dev)
    (reg_mr : ℕ → ℕ → ℕ → List IbvAccessFlags → Option IbvMr) (L : Host) (qp_dev : Qp → W.Dev)
    (C : Mpsc (ConnOf V Q QE QR)) (device : ℕ) where
  abbrev Conns : Type 0
  Conns = ConnOf V Q QE QR

  abbrev Answers : Type 0
  Answers = List (Places × IoResult T.Stream)

  -- The streams that were accepted before the first error, and whether there was one.
  abbrev pub streams_of : Answers → List (Places × T.Stream)
  streams_of [] = []
  streams_of ((p, ok stream) ∷ answers) = (p, stream) ∷ streams_of answers
  streams_of ((p, err e) ∷ answers) = []

  abbrev pub has_error : Answers → Bool
  has_error [] = false
  has_error ((p, ok stream) ∷ answers) = has_error answers
  has_error ((p, err e) ∷ answers) = true

  -- The queue pair that is made for a stream, and the connection that comes up with it.
  abbrev pub new_one : Heap → Option (Qp × Heap)
  new_one h = new_qp L (clone_device h device) device (new_cap 16384 16384 5 5)

  abbrev pub come_up : Places → T.Stream → Qp → Option Conns
  come_up p stream qp =
      establish V W T E B Q QE QR data_path reg_mr qp.pd.inner p (qp_dev qp) stream

  -- Each connection has come up over its stream with the queue pair that was made for it.
  abbrev pub Each : List (Places × T.Stream) → List (Qp × Conns) → Type 0
  Each [] [] = Unit
  Each [] (u ∷ us) = ⊥
  Each (s ∷ ss) [] = ⊥
  Each ((p, stream) ∷ ss) ((qp, conn) ∷ us) =
      ((h : Heap) × (h' : Heap) × (new_one h ≡ some (qp, h')))
      × (come_up p stream qp ≡ some conn)
      × Each ss us

  abbrev pub newest_first : List (Qp × Conns) → List Qp → List Qp
  newest_first [] qps = qps
  newest_first ((qp, conn) ∷ us) qps = newest_first us (qp ∷ qps)

  -- Since the state `qps`, `sender`, the connections of the streams `ss` have been put into the
  -- channel in order, and their queue pairs are live.
  pub record Handed (held : Bool) (ss : List (Places × T.Stream)) (qps : List Qp) (sender : C.Chan)
      (h : Heap) (rest : C.Chan) : Type 0 where
    pub ups : List (Qp × Conns)
    pub each : Each ss ups
    pub history : History L device held (newest_first ups qps) h
    pub queue : C.queued rest ≡ C.queued sender ++ map (λ u. u.1) ups

  -- The loop has come to a stop at a stream, with those before it handed over.
  pub record Cut (why : Places × T.Stream → Heap → C.Chan → Type 0) (answers : Answers)
      (qps : List Qp) (sender : C.Chan) : Type 0 where
    pub before : List (Places × T.Stream)
    pub at : Places × T.Stream
    pub behind : List (Places × T.Stream)
    pub heap : Heap
    pub chan : C.Chan
    pub parts : streams_of answers ≡ before ++ at ∷ behind
    pub handed : Handed true before qps sender heap chan
    pub reason : why at heap chan

  abbrev pub Full : Places × T.Stream → Heap → C.Chan → Type 0
  Full at h chan = C.bound chan ≤ length (C.queued chan)

  abbrev pub Unmade : Places × T.Stream → Heap → C.Chan → Type 0
  Unmade (p, stream) h chan =
      (new_one h ≡ none)
      ⊎ ((qp : Qp) × (h' : Heap) × (new_one h ≡ some (qp, h')) × (come_up p stream qp ≡ none))

  abbrev pub Served : Answers → List Qp → C.Chan → Serving C.Chan → Type 0
  Served answers qps sender (going h rest) =
      (has_error answers ≡ false) × Handed true (streams_of answers) qps sender h rest
  Served answers qps sender (ended h rest) =
      (has_error answers ≡ true) × Handed false (streams_of answers) qps sender h rest
  Served answers qps sender waits = Cut Full answers qps sender
  Served answers qps sender panics = Cut Unmade answers qps sender
