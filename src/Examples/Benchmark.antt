-- ===== src/Examples/Benchmark.antt =====
-- The benchmark (examples/benchmark.rs): the task of its server, and the times that its client adds up.
-- Every round of the client is a run of the two programs. A `Duration` is a number of nanoseconds; the
-- rates in `f64` are left aside.
use ibv.Prelude.{
  ℕ, ◌+◌, ◌*◌, ◌/◌, ◌%◌, ◌≤◌, ◌<◌, ◌≡◌, refl, sym, ap, ◌∙◌, Bool, true, false, List, [], ◌∷◌, map,
  ◌==◌, if◌then◌else◌, length, sum, u32_mod, arith,
}
use native.Mathlib.Nat.{
  mul-div-le, lt-mul-div-succ, div-div-eq-div-mul, div-mul-le_self, div-le_of_le-mul, mul_comm,
  le-div_iff_mul-le, div-lt_iff_lt-mul,
}
use ibv.Examples.{Server, new_server}

-- The loop of the server's task over the connections that it accepts: each is moved into a task of its
-- own with a copy of `count`, and then `count` is compared. The answer has the tasks, and whether the
-- loop has ended; else it waits for a connection.
unfoldable pub server_task {ℓ} : {C : Type ℓ} → ℕ → ℕ → ℕ → List C → List (C × Server) × Bool
server_task total num_iterations count [] = ([], false)
server_task {C = C} total num_iterations count (conn ∷ conns) =
    let task : C × Server = (conn, record new_server { count = count }) in
    let rest = server_task total num_iterations count conns in
    if count == total * num_iterations % u32_mod then (task ∷ [], true) else (task ∷ rest.0, rest.1)

-- If `total * num_iterations` is not 0 as a `u32`, the loop of the benchmark's server does not
-- end, whatever connections it accepts, and the task of each connection counts from 0.
pub server_task-waits {ℓ} :
    {C : Type ℓ} (total num_iterations : ℕ) (conns : List C)
    → 0 < total * num_iterations % u32_mod
    → server_task total num_iterations 0 conns ≡ (map (λ conn. (conn, new_server)) conns, false)
unfolding server_task
server_task-waits total num_iterations [] some_requests = refl
server_task-waits total num_iterations (conn ∷ conns) some_requests =
    ground (arith, server_task-waits total num_iterations conns some_requests)

pub record Totals : Type 0 where
  pub elapsed : ℕ
  pub latency : ℕ

-- the end of a round
unfoldable pub add_round : ℕ → Totals → ℕ → Totals
add_round total t elapsed = record {
  elapsed = t.elapsed + elapsed;
  latency = t.latency + elapsed / total;
}

unfoldable pub add_rounds : ℕ → Totals → List ℕ → Totals
unfolding add_round
add_rounds total t [] = t
add_rounds total t (elapsed ∷ rounds) = add_rounds total (add_round total t elapsed) rounds

unfoldable pub averages : ℕ → Totals → Totals
averages num_iterations t = record {
  elapsed = t.elapsed / num_iterations;
  latency = t.latency / num_iterations;
}

-- What the totals of some rounds are, with the rounding of the latencies.
module _ (total : ℕ) (positive : 0 < total) where
  add_rounds-bounds :
      (t : Totals) (rounds : List ℕ)
      → ((add_rounds total t rounds).elapsed ≡ t.elapsed + sum rounds)
        × (total * (add_rounds total t rounds).latency ≤ total * t.latency + sum rounds)
        × (total * t.latency + sum rounds
            ≤ total * (add_rounds total t rounds).latency + total * length rounds)
  unfolding add_rounds add_round
  add_rounds-bounds t [] = omega arith
  add_rounds-bounds t (e ∷ rounds) = grind (
    arith,
    add_rounds-bounds (add_round total t e) rounds,
    mul-div-le e total,
    lt-mul-div-succ e positive,
  )

  averages_of_bounds :
      (n elapsed latency : ℕ)
      → 0 < n
      → total * latency ≤ elapsed
      → elapsed ≤ total * latency + total * n
      → (latency / n ≤ elapsed / n / total) × (elapsed / n / total ≤ latency / n + 1)
  averages_of_bounds n elapsed latency some low high = rw swap (
    (le-div_iff_mul-le some).1 (omega (arith, div-mul-le_self latency n, floor)),
    omega (
      arith,
      (div-lt_iff_lt-mul some).1 (
          let k : ℕ = latency / n in
          let below : latency < n * (k + 1) = lt-mul-div-succ latency some in
          let up : elapsed / total < (k + 2) * n = grind (arith, ceiling, below) in up),
    ),
  )
    where
      swap : elapsed / n / total ≡ elapsed / total / n
      swap =
          div-div-eq-div-mul elapsed n total
          ∙ ap (λ k. elapsed / k) (mul_comm n total)
          ∙ sym (div-div-eq-div-mul elapsed total n)

      floor : latency ≤ elapsed / total
      floor = (le-div_iff_mul-le positive).1 (grind (arith, low))

      ceiling : elapsed / total ≤ latency + n
      ceiling = div-le_of_le-mul total (grind (arith, high))

  -- The average latency is the average time of a round divided by the number of requests, but for at
  -- most one nanosecond below.
  averages-latency :
      (num_iterations : ℕ) (rounds : List ℕ)
      → 0 < num_iterations
      → length rounds ≡ num_iterations
      → let a =
          averages num_iterations (add_rounds total (record { elapsed = 0; latency = 0 }) rounds) in
        (a.latency ≤ a.elapsed / total) × (a.elapsed / total ≤ a.latency + 1)
  unfolding averages
  averages-latency n rounds some_rounds e =
      let (all, low, high) = add_rounds-bounds (record { elapsed = 0; latency = 0 }) rounds in
      averages_of_bounds n _ _ some_rounds (omega (arith, all, low))
        (rw (← e) (omega (arith, all, high)))
