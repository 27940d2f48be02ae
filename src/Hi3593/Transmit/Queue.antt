-- ===== src/Hi3593/Transmit/Queue.antt =====
-- The queue between `hi3593_tx_start_xmit` and the worker (driver/devices/hi3593.c).
use driver_arinc.Prelude.{
  ◌+◌, ◌%◌, ◌≡◌, refl, Bool, true, false, List, [], ◌∷◌, ◌++◌, is_index, arith, ◌==◌, leb, ◌&&◌,
  if◌then◌else◌, append_assoc, append-nil, Bool-cases, inl, inr,
}
use driver_arinc.Bytes.{Endian}
use driver_arinc.Kernel.{Kernel}
use driver_arinc.Hi3593.{Skb, Port, sample_size, mtu}
use driver_arinc.Hi3593.Transmit.{start_xmit, tx_drop, run_work}
use driver_arinc.Hi3593.Transmit.Laws.{tx_worker_outcomes, tx_worker-indices}

-- What `hi3593_tx_start_xmit` accepts: the driver's protocol, whole samples, at most the MTU.
abbrev pub is_accepted : Skb → Bool
is_accepted skb = (skb.protocol == 0x001d) && leb skb.len mtu && (skb.len % sample_size == 0)

abbrev pub AreAccepted : List Skb → Type 0
AreAccepted [] = Unit
AreAccepted (skb ∷ rest) = (is_accepted skb ≡ true) × AreAccepted rest

-- A port of a transmitter.
pub record IsTxPort {k : Kernel} (p : Port k) : Type 0 where
  pub typed : p.is_avionics ≡ true
  pub indexed : is_index p.tx_index 0 ≡ true

module _ (k : Kernel) (e : Endian) where
  -- Packets handed to `hi3593_tx_start_xmit` one after the other, before the worker runs.
  pub xmit_all : List Skb → Port k → Port k
  xmit_all [] p = p
  xmit_all (skb ∷ rest) p = xmit_all rest (start_xmit k e skb p)

  -- Packets of which each is followed by a run of the workqueue.
  pub serve_all : List Skb → Port k → Port k
  serve_all [] p = p
  serve_all (skb ∷ rest) p = serve_all rest (run_work k e (start_xmit k e skb p))

  -- On a port of the driver, an accepted packet is put behind the queue and work is scheduled; any
  -- other packet is counted as dropped, and nothing else changes.
  pub start_xmit_lem :
      (skb : Skb) (p : Port k)
      → p.is_avionics ≡ true
      → start_xmit k e skb p ≡ (
          if is_accepted skb
          then record p { skbq = p.skbq ++ skb ∷ []; work_pending = true }
          else record p { stats = record p.stats { tx_dropped = p.stats.tx_dropped + 1 } })
  unfolding start_xmit tx_drop
  start_xmit_lem skb p av = ground arith

  xmit_all-queues :
      (skbs : List Skb) (p : Port k)
      → p.is_avionics ≡ true
      → p.work_pending ≡ true
      → AreAccepted skbs
      → xmit_all skbs p ≡ record p { skbq = p.skbq ++ skbs }
  unfolding xmit_all
  xmit_all-queues [] p av pending a = rw (append-nil p.skbq)
  xmit_all-queues (skb ∷ rest) p av pending a =
      let p1 = record p { skbq = p.skbq ++ skb ∷ [] } in
      ground (
        arith,
        start_xmit_lem skb p av,
        xmit_all-queues rest p1 av pending a.1,
        append_assoc p.skbq (skb ∷ []) rest,
      )

  run_work-takes :
      (skb : Skb) (rest : List Skb) (p : Port k)
      → IsTxPort p
      → p.work_pending ≡ true
      → p.skbq ≡ skb ∷ rest
      → let p' = run_work k e p in IsTxPort p' × (p'.skbq ≡ rest) × (p'.work_pending ≡ false)
  unfolding run_work
  run_work-takes skb rest p port pending q =
      let start = record p { work_pending = false } in
      ground (
        arith,
        tx_worker_outcomes k e skb rest start port.typed port.indexed q,
        tx_worker-indices k e start,
      )

  run_work_idle : (p : Port k) → p.work_pending ≡ false → run_work k e p ≡ p
  unfolding run_work
  run_work_idle p none_pending = ground arith

  run_one :
      (skb : Skb) (p : Port k)
      → IsTxPort p
      → p.skbq ≡ []
      → p.work_pending ≡ false
      → let p' = run_work k e (start_xmit k e skb p) in
        IsTxPort p' × (p'.skbq ≡ []) × (p'.work_pending ≡ false)
  run_one skb p port idle none_pending = elim (Bool-cases (is_accepted skb)) [
    | inl good ↦
        let p1 = record p { skbq = skb ∷ []; work_pending = true } in
        let port1 : IsTxPort p1 = record { typed = port.typed; indexed = port.indexed } in
        ground (arith, start_xmit_lem skb p port.typed, run_work-takes skb [] p1 port1 refl refl)
    | inr bad ↦
        let p1 = record p { stats = record p.stats { tx_dropped = p.stats.tx_dropped + 1 } } in
        ground (arith, start_xmit_lem skb p port.typed, run_work_idle p1 none_pending)
  ]

  -- Packets that are handed over faster than the worker starts are stuck: the worker takes the
  -- first of them, and the others stay in the queue with no work scheduled. This holds for every
  -- idle transmitter and every burst of accepted packets.
  pub burst_stalls :
      (first : Skb) (rest : List Skb) (p : Port k)
      → IsTxPort p
      → p.skbq ≡ []
      → AreAccepted (first ∷ rest)
      → let p' = run_work k e (xmit_all (first ∷ rest) p) in
        (p'.skbq ≡ rest) × (p'.work_pending ≡ false)
  unfolding xmit_all
  burst_stalls first rest p port idle a =
      let p1 = record p { skbq = first ∷ []; work_pending = true } in
      let p2 = record p { skbq = first ∷ rest; work_pending = true } in
      ground (
        arith,
        start_xmit_lem first p port.typed,
        xmit_all-queues rest p1 port.typed refl a.1,
        run_work-takes first rest p2 (record { typed = port.typed; indexed = port.indexed }) refl
            refl,
      )

  -- Where each packet, accepted or not, is followed by a run of the workqueue, the queue is empty
  -- at the end and nothing is pending. At the start the transmitter is idle, with an empty queue.
  pub serve_all-drains :
      (skbs : List Skb) (p : Port k)
      → IsTxPort p
      → p.skbq ≡ []
      → p.work_pending ≡ false
      → let p' = serve_all skbs p in (p'.skbq ≡ []) × (p'.work_pending ≡ false)
  unfolding serve_all
  serve_all-drains [] p port idle none_pending = (idle, none_pending)
  serve_all-drains (skb ∷ rest) p port idle none_pending =
      let (port', idle', none') = run_one skb p port idle none_pending in
      serve_all-drains rest (run_work k e (start_xmit k e skb p)) port' idle' none'
