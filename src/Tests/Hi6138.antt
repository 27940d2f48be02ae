-- ===== src/Tests/Hi6138.antt =====
-- The theorems about driver/devices/hi6138.c at a concrete monitor.
use driver_arinc.Prelude.{
  ℕ, ◌+◌, ◌*◌, ◌<◌, ◌≡◌, refl, true, false, List, [], ◌∷◌, ◌++◌, ok, arith, inl, ◌==◌,
  if◌then◌else◌,
}
use driver_arinc.Kernel.WordMemory.{AreWords, block}
use driver_arinc.Hi6138.{Monitor}
use driver_arinc.Hi6138.Memory.{get_mem, set_mem, all_bytes, set_fastaccess}
use driver_arinc.Hi6138.Memory.Laws.{get_mem-set_mem}
use driver_arinc.Hi6138.Monitoring.{Outcome, walk_to, irq, irq_worker}
use driver_arinc.Hi6138.Monitoring.Balance.{irq_worker_balance}
use driver_arinc.Hi6138.Monitoring.Drain.{irq_worker-drains, Stands}
use driver_arinc.Hi6138.Monitoring.Ring.{entry, ring}
use driver_arinc.Hi6138.Monitoring.Walk.{AllFit, span, walk_to-replays}
use driver_arinc.Tests.Chip.{no_stats}
use driver_arinc.Tests.Words.{words, words_mem, has_memory, has_pending, read_words, write_words}

-- Each word of the chip is 4: every message has 4 bytes.
abbrev monitor : Monitor words
monitor = record {
  world = record { pointer = 0; contents = λ a. 4; status = λ a. 0 };
  is_avionics = true;
  lock_depth = 0;
  irq_depth = 0;
  work_pending = false;
  ackirq_gpio = 9;
  bm_enabled = true;
  smt_last_addr = 0x600 + 8 * 158;
  queue_awake = true;
  stats = no_stats;
  delivered = [];
}

abbrev three_words : List ℕ
three_words = 0xffff ∷ 0 ∷ 0x1234 ∷ []

three_words-AreWords : AreWords three_words
unfolding AreWords
three_words-AreWords = (omega arith, (omega arith, (omega arith, tt)))

get_mem-set_mem_example :
    let (r, p1) = set_mem words 0xb0 three_words monitor in
    (r ≡ ok tt)
    × ((get_mem words 0xb0 3 p1).0 ≡ ok three_words)
    × ((b : ℕ) → b < 0xb0 → words_mem p1.world b ≡ words_mem monitor.world b)
get_mem-set_mem_example =
    get_mem-set_mem has_memory 0xb0 three_words monitor (omega arith) three_words-AreWords

messages_fit : AllFit (words_mem monitor.world)
unfolding AllFit
messages_fit i h = omega arith

walk_to-replays_example :
    let p' = (walk_to words 162 (entry 1) monitor).1 in
    let p'' = (walk_to words 162 (entry 1) p').1 in
    (p''.delivered ≡ p'.delivered ++ ring (words_mem monitor.world) (1 + 1) 160)
    × (p''.stats.rx_packets ≡ p'.stats.rx_packets + 160)
walk_to-replays_example =
    walk_to-replays has_memory (λ n w. refl) 158 1 monitor messages_fit (omega arith) (omega arith)
      refl

-- Every word and register of the chip is 10: the monitor's interrupt is pending, and no entry has been written.
abbrev waiting : Monitor words
waiting = record monitor { world = record { pointer = 0; contents = λ a. 10; status = λ a. 10 } }

waiting_returns : (irq_worker words 162 (irq words true waiting)).0 ≡ Outcome.returned
unfolding irq_worker irq read_words write_words all_bytes block set_fastaccess
waiting_returns = refl

irq_worker_balance_example :
    let p' = (irq_worker words 162 (irq words true waiting)).1 in
    (p'.lock_depth ≡ 0) × (p'.irq_depth ≡ 0)
irq_worker_balance_example = irq_worker_balance 162 waiting waiting_returns

-- Each word is 4 but the address of the last entry, which is entry 1; both interrupts are pending.
abbrev pending : Monitor words
pending = record monitor {
  world = record {
    pointer = 0;
    contents = λ a. if a == 0x31 then entry 1 else 4;
    status = λ a. 10;
  };
}

pending_fit : AllFit (words_mem pending.world)
unfolding AllFit
pending_fit i h = ground (arith, h)

irq_worker-drains_example :
    let (r, p') = irq_worker words 162 (irq words true pending) in
    (r ≡ Outcome.returned)
    × (p'.delivered ≡ [] ++ ring (words_mem pending.world) 158 (span 158 1))
    × (p'.stats.rx_packets ≡ 0 + span 158 1)
    × (p'.smt_last_addr ≡ entry 2)
    × (p'.lock_depth ≡ 0)
    × (p'.irq_depth ≡ 0)
unfolding has_pending Stands
irq_worker-drains_example =
    irq_worker-drains has_memory has_pending (λ n w. refl) 158 1 pending pending_fit refl refl refl
      refl (omega arith) (omega arith) (inl refl)
