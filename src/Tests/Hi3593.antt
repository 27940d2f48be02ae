-- ===== src/Tests/Hi3593.antt =====
-- The theorems about driver/devices/hi3593.c at concrete ports, and concrete runs.
use driver_arinc.Prelude.{
  ℕ, ◌+◌, ◌<◌, ◌≡◌, ◌↔◌, ◌⊎◌, ◌≢◌, refl, true, false, List, [], ◌∷◌, bit_and, ok, err, einval, pos,
  some, arith,
}
use driver_arinc.Bytes.{Endian, Quad}
use driver_arinc.Bytes.Order.{IsBytes}
use driver_arinc.Hi3593.{Skb, Port}
use driver_arinc.Hi3593.Control.{
  get_cntrl, set_cntrl, set_rate, get_cntrl_opcode, set_cntrl_opcode, masked,
}
use driver_arinc.Hi3593.Control.Laws.{set_cntrl-sets, set_cntrl_verified, set_rate_refused}
use driver_arinc.Hi3593.Settings.{Arinc429rx, get_arinc429rx, set_arinc429rx}
use driver_arinc.Hi3593.Settings.Laws.{Selects-rx1, get_arinc429rx-set_arinc429rx}
use driver_arinc.Hi3593.Transmit.{tx_worker, run_work}
use driver_arinc.Hi3593.Transmit.Fifo.{words, tx_worker-sends}
use driver_arinc.Hi3593.Transmit.Queue.{xmit_all, serve_all, burst_stalls, serve_all-drains}
use driver_arinc.Hi3593.Receive.{RxOps, rx_ops, rx_fifo, rx_worker, parity_accepts}
use driver_arinc.Hi3593.Receive.Parity.{parity_accepts_iff}
use driver_arinc.Hi3593.Receive.Counters.{IsCounted, rx_worker-IsCounted}
use driver_arinc.Hi3593.Receive.Fifo.{received, AllBytes, all_values, rx_fifo-delivers}
use driver_arinc.Hi3593.Interrupt.{rx_open, rx_irq, clear_enabled, disable_irq}
use driver_arinc.Hi3593.Interrupt.Depth.{
  Event, History, IsBalanced, History-IsBalanced, rx_stop_race,
}
use driver_arinc.Tests.Chip.{
  Chip, chip, idle, tx_port, rx_port, control_of, tx_control, receiver, transmitter, receive_fifo,
  sent_of,
}

abbrev pub e : Endian
e = Endian.little

-- A word whose label byte is 0x61 and whose parity bit is clear, and one with the parity bit set.
abbrev pub even_word : Quad
even_word = record { b0 = 0x12; b1 = 0x34; b2 = 0x56; b3 = 0x61 }

abbrev pub odd_word : Quad
odd_word = record { b0 = 0x92; b1 = 0x34; b2 = 0x56; b3 = 0x61 }

abbrev pub ops : RxOps
ops = record {
  rd_cmd = 0xa0;
  status_cmd = 0x90;
  pl_cmd0 = 0xa4;
  pl_cmd1 = 0xa8;
  pl_cmd2 = 0xac;
  pl_rd = 0x9c;
}

abbrev pub full_port : Port chip
full_port = record rx_port { world = record idle { fifo = even_word ∷ odd_word ∷ even_word ∷ [] } }

rx_ops_first : rx_ops (pos 0) ≡ some ops
unfolding rx_ops
rx_ops_first = refl

one_word-IsBytes : IsBytes even_word × IsBytes odd_word
one_word-IsBytes = (
  record { r0 = omega arith; r1 = omega arith; r2 = omega arith; r3 = omega arith },
  record { r0 = omega arith; r1 = omega arith; r2 = omega arith; r3 = omega arith },
)

pub word_bytes : AllBytes (even_word ∷ odd_word ∷ even_word ∷ [])
word_bytes = (one_word-IsBytes.0, (one_word-IsBytes.1, (one_word-IsBytes.0, tt)))

rx_fifo-delivers_example :
    let (r, p') = rx_fifo chip e ops full_port in
    (r ≡ ok tt) × (all_values p'.delivered ≡ received e 8 0 (even_word ∷ odd_word ∷ even_word ∷ []))
rx_fifo-delivers_example =
    rx_fifo-delivers e receive_fifo ops even_word (odd_word ∷ even_word ∷ []) full_port refl refl
      refl word_bytes (omega arith) (λ n w. refl)

-- Two samples that are sent at once.
abbrev packet : Skb
packet = record {
  protocol = 0x001d;
  len = 24;
  samples = λ i. record { time_msecs = 0; value = 0x12345661 + i };
}

abbrev odd_packet : Skb
odd_packet = record packet { len = 25 }

abbrev loaded_port : Port chip
loaded_port = record tx_port { skbq = packet ∷ odd_packet ∷ [] }

tx_worker-sends_example :
    let p' = tx_worker chip e loaded_port in
    (sent_of p'.world ≡ words e 2 0 packet.samples)
    × (p'.stats.tx_packets ≡ 1)
    × (p'.stats.tx_bytes ≡ 24)
    × (p'.stats.tx_dropped ≡ 0)
    × (p'.held ≡ [])
tx_worker-sends_example =
    tx_worker-sends e transmitter packet (odd_packet ∷ []) loaded_port refl refl refl

abbrev running : Port chip
running = record rx_port { rx_enabled = true; irq_depth = 0 }

running-IsBalanced : IsBalanced chip e ops 0 running
running-IsBalanced = record { typed = refl; depth = refl; indexed = rx_ops_first }

-- The interrupt of an open receiver fires, and the receiver is opened once more before the worker.
History-IsBalanced_example : IsBalanced chip e ops 0 (rx_open chip (rx_irq chip true running)).1
History-IsBalanced_example = History-IsBalanced chip e ops running-IsBalanced (
    History.next (History.next History.here (Event.fired running refl))
      (Event.opened (rx_irq chip true running)))

rx_stop_race_example :
    let q = (rx_open chip (disable_irq chip (rx_irq chip true (clear_enabled chip running)))).1 in
    (q.rx_enabled ≡ true) × (q.work_pending ≡ false) × (q.irq_depth ≡ 1)
rx_stop_race_example = rx_stop_race chip e ops running running-IsBalanced refl refl

set_cntrl-sets_example :
    (w : Chip) × (set_cntrl chip 0x01 0x01 tx_port ≡ (ok tt, record tx_port { world = w }))
    × (bit_and (control_of w) 0x01 ≡ 1)
    × (bit_and (control_of w) 0xfe ≡ 0x2a)
set_cntrl-sets_example = set_cntrl-sets 0x01 0x01 tx_port tx_control (omega arith)

abbrev set_port : Port chip
set_port = (set_cntrl chip 0x01 0x01 tx_port).1

set_cntrl_succeeds : set_cntrl chip 0x01 0x01 tx_port ≡ (ok tt, set_port)
unfolding set_cntrl get_cntrl get_cntrl_opcode set_cntrl_opcode masked
set_cntrl_succeeds = refl

set_cntrl_verified_example :
    (q : Port chip) × (status : ℕ) × (get_cntrl chip q ≡ (ok status, set_port))
    × (bit_and status 0x01 ≡ 1)
set_cntrl_verified_example = set_cntrl_verified chip 0x01 0x01 tx_port set_port set_cntrl_succeeds

set_rate_refused_example : set_rate chip 250 50000 tx_port ≡ (err einval, tx_port)
set_rate_refused_example =
    set_rate_refused chip 250 50000 tx_port (λ h. omega arith) (λ h. omega arith)

abbrev no_filters : List ℕ
no_filters =
    0 ∷ 0 ∷ 0 ∷ 0 ∷ 0 ∷ 0 ∷ 0 ∷ 0 ∷ 0 ∷ 0 ∷ 0 ∷ 0 ∷ 0 ∷ 0 ∷ 0 ∷ 0 ∷ 0 ∷ 0 ∷ 0 ∷ 0 ∷ 0 ∷ 0 ∷ 0 ∷ 0
    ∷ 0 ∷ 0 ∷ 0 ∷ 0 ∷ 0 ∷ 0 ∷ 0 ∷ 255 ∷ []

abbrev settings : Arinc429rx
settings = record { flags = 0x0d; priority_labels = 1 ∷ 2 ∷ 3 ∷ []; label_filters = no_filters }

abbrev stale : Arinc429rx
stale = record { flags = 0; priority_labels = []; label_filters = [] }

get_arinc429rx-set_arinc429rx_example :
    let (r, p') = set_arinc429rx chip settings rx_port in
    (r ≡ ok tt) × ((get_arinc429rx chip stale p').0 ≡ settings)
get_arinc429rx-set_arinc429rx_example =
    get_arinc429rx-set_arinc429rx receiver settings stale rx_port Selects-rx1 refl (omega arith)
      refl refl

parity_accepts_iff_example :
    (parity_accepts 8 0 0x92 ≡ true) ↔ ((◌≡◌ {A = ℕ} 8 0) ⊎ (◌≢◌ {A = ℕ} 0 0) ⊎ (0x92 < 128))
parity_accepts_iff_example = parity_accepts_iff 8 0 0x92 (omega arith)

rx_port-IsCounted : IsCounted full_port
rx_port-IsCounted = record { packets = refl; bytes = refl }

rx_worker-IsCounted_example : IsCounted (rx_worker chip e full_port)
rx_worker-IsCounted_example = rx_worker-IsCounted chip e full_port rx_port-IsCounted

burst_stalls_example :
    let p' = run_work chip e (xmit_all chip e (packet ∷ packet ∷ packet ∷ []) tx_port) in
    (p'.skbq ≡ packet ∷ packet ∷ []) × (p'.work_pending ≡ false)
burst_stalls_example =
    burst_stalls chip e packet (packet ∷ packet ∷ []) tx_port
      (record { typed = refl; indexed = refl }) refl (refl, (refl, (refl, tt)))

serve_all-drains_example :
    let p' = serve_all chip e (packet ∷ odd_packet ∷ packet ∷ []) tx_port in
    (p'.skbq ≡ []) × (p'.work_pending ≡ false)
serve_all-drains_example =
    serve_all-drains chip e (packet ∷ odd_packet ∷ packet ∷ []) tx_port
      (record { typed = refl; indexed = refl }) refl refl
