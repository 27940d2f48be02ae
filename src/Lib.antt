-- ===== src/Lib.antt =====
-- Verification of the avionics socket driver: a Linux network driver for ARINC-429, ARINC-717
-- and MIL-STD-1553 interfaces that are reached through a socket family of its own.
--
-- The program's parts. A program opens a socket of the family (driver/net/avionics.c) with the raw or
-- the timestamp protocol (driver/net/protocol-raw.c, driver/net/protocol-timestamp.c, and what they
-- share in driver/net/protocol.c) and binds it to a network device, in whose socket list
-- (driver/net/socket-list.c) it is then found. A message that is sent becomes a packet of 12-byte
-- samples, which the device's driver queues; a worker writes its words to the chip over SPI. A
-- receive interrupt schedules a worker that reads the chip's FIFO and hands a packet to the family,
-- which puts a copy into the queue of each socket of the device's list. Settings come over netlink
-- (driver/net/device.c). The device drivers are driver/devices/hi3593.c (ARINC-429), hi3717a.c
-- (ARINC-717), hi6138.c (MIL-STD-1553) and lb.c (loopback).
--
-- The files.
--   Prelude           shared names; `Step S A`, a C function over a state that returns a result.
--   Bits, Bytes       bit operations; the words of driver/include/avionics.h and their byte order.
--   Kernel            what the drivers call in the Linux kernel, as a parameter: SPI transfers, GPIO
--                     lines, the clock, sleeping, allocation. Its children say what a data sheet
--                     promises of a register, a receiver and the FIFOs of the HI-3593 (Register,
--                     Receiver, Transmitter, ReceiveFifo), of the registers and FIFOs of the HI-3717A
--                     (FrameChip) and of the memory and the pending registers of the HI-6138
--                     (WordMemory).
--   Hi3593            driver/devices/hi3593.c. `Port` is `struct hi3593_priv` with the queues and
--                     counters of its network device. Control: hi3593_get_cntrl, _set_cntrl,
--                     _set_rate, _get_rate. Settings: the ARINC-429 settings, _change_mtu, _tx_open,
--                     _tx_stop. Transmit: _tx_start_xmit, _tx_worker. Receive: _rx_worker.
--                     Interrupt: _rx_open, _rx_stop, _rx_irq. Bringup: _probe, _get_config, _reset,
--                     _set_aclk, _create_netdevs, _remove.
--   Hi3717a           driver/devices/hi3717a.c. `Port` is `struct hi3717a_priv`, with the memory that
--                     its transmit buffer is in. Control: hi3717a_get_cntrl, _set_cntrl, _set_rate,
--                     _get_rate and the ARINC-717 settings. Transmit: _tx_open, _tx_stop,
--                     _tx_start_xmit, and _tx_worker as its start (`tx_worker`) and a round of its
--                     outer loop (`tx_round`). Receive: _rx_open, _rx_stop, _rx_irq, _rx_worker.
--                     Bringup: _probe, _get_config, _reset, _create_netdevs, _remove.
--   Hi6138            driver/devices/hi6138.c. `Monitor` is `struct hi6138` with `struct hi6138_priv`.
--                     Memory: hi6138_get_fastaccess, _set_fastaccess, _get_mem, _set_mem, _get_reg,
--                     _set_reg. Monitoring: _bm_open, _bm_stop, _irq, _irq_worker, _irq_bm. Bringup:
--                     _reset, _init_smt_mem. Probe: _probe, _get_config, _create_netdevs,
--                     _remove.
--   Net               driver/net. `Net` is the state: devices, sockets, the list lock, buffers.
--                     Sockets: socket-list.c. Protocol: protocol.c. Messages: protocol-raw.c and
--                     protocol-timestamp.c. Family: avionics.c. Device: the settings of device.c.
--                     Lifecycle: its devices and buffers. Loopback: lb.c. Transfer: the way of a
--                     message between the sockets and the drivers. System: all of driver/net, step
--                     by step.
--   Tests             chips and a network on which the theorems are instantiated.
-- A child of a component's module proves what its name says.
--
-- Bounds. The receive loop runs for 3072 / 12 = 256 rounds at most, as in the source: the FIFO of
-- the chip holds 32 words. The transmit loop has as many rounds as the packet has samples.
-- Three loops of the source have no bound of their own and run on fuel. The inner loop of
-- hi3717a_tx_worker ends when the FIFO is full: where the chip takes at most `d` words meanwhile,
-- `d` + 33 rounds are enough for its 32 words. The loop of
-- hi3717a_rxfifo_read_all takes a word a round while no word arrives: 33 rounds are enough. The walk
-- of hi6138_irq_bm takes an entry a round of the 160 of the command stack: 162 are enough. The outer
-- loop of hi3717a_tx_worker, which ends when the transmitter is stopped, is not run to its end: a
-- round of it is a step. All other loops are structural. Counters and the time are natural numbers;
-- the time is cut to 64 bits, words and bytes to 32 and 8 bits. The counters of the network device
-- are `unsigned long`, and their wrap-around is not modelled.
--
-- Concurrency. A function runs without interruption, but where a theorem is about a race: then the
-- halves of the function are separate steps. A delayed work that is queued while it is pending runs
-- once. A caller that finds the list lock held waits.
--
-- Undefined behaviour. An access through a NULL pointer or behind the buffer on the stack is an
-- outcome or a field `faulted` of the state, after which nothing is said. A block of memory that is freed has no words, and a store
-- behind the end of a block is lost.
--
-- Not modelled: log messages; the calls that register a protocol or a driver, except the order in
-- driver/net/avionics.c; the tables of operations of the two protocols, which the kernel calls
-- through; `device_newlink`, which refuses every request.
pub mod Prelude
pub mod Bits
pub mod Bytes
pub mod Kernel
pub mod Hi3593
pub mod Hi3717a
pub mod Hi6138
pub mod Net
pub mod Tests
