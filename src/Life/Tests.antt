-- ===== src/Life/Tests.antt =====
-- A device with two queue pairs, and the theorems about the life of queue pairs at it.
use ibv.Prelude.{◌+◌, refl, true, false, none, some, [], ◌∷◌, length}
use ibv.Cq
use ibv.Cq.{Cq}
use ibv.Life.{
  QpCap, Host, Heap, Qp, default_device, clone_device, drop_device, new_pd, new_cq, new_inner,
  new_qp, drop_qp, call, set_strong, open_device, init_attr, alloc_pd, create_cq, create_qp,
}
use ibv.Life.History.{
  History, opened, accepted, stopped, dropped, Balanced, History-Balanced, no_heap,
}

abbrev host : Host
host = record {
  open_device_answer = λ log. some 1;
  alloc_pd_answer = λ log d. some (10 + length log);
  create_comp_channel_answer = λ log d. none;
  create_cq_answer = λ log d n c. some (20 + length log);
  create_qp_answer = λ log pd attr. some (30 + length log);
}

abbrev opened_heap : Heap
opened_heap = set_strong (call no_heap (open_device 1)) 1 1

opened_now : History host 1 true [] opened_heap
unfolding default_device
opened_now = opened refl

abbrev small_cap : QpCap
small_cap = record {
  max_send_wr = 16;
  max_recv_wr = 16;
  max_send_sge = 5;
  max_recv_sge = 5;
  max_inline_data = 0;
}

abbrev pair : Qp
pair = record {
  inner = 33;
  pd = record { inner = 11; device = 1 };
  cq = record { inner = 22; channel = none };
  cq_device = 1;
}

abbrev with_pd : Heap
with_pd = call (clone_device (clone_device opened_heap 1) 1) (alloc_pd 11 1)

abbrev with_cq : Heap
with_cq = drop_device (clone_device (call (clone_device with_pd 1) (create_cq 22 1)) 1) 1

abbrev made_heap : Heap
made_heap = drop_device (call with_cq (create_qp 33 11 (init_attr 22 small_cap))) 1

made_now : History host 1 true (pair ∷ []) made_heap
unfolding new_qp new_pd new_cq new_inner Cq.new clone_device drop_device
made_now = accepted small_cap opened_now refl

gone : History host 1 false [] (drop_qp (drop_device made_heap 1) pair)
gone = dropped [] [] pair (stopped made_now)

History-Balanced_example : Balanced host 1 false [] (drop_qp (drop_device made_heap 1) pair)
History-Balanced_example = History-Balanced host 1 gone
