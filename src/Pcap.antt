-- ===== src/Pcap.antt =====
-- src/drivers/Driver.h and DriverPcap: the packets of a capture file are handed out at the pace at
-- which they were captured. The time of each call and what pcap_dispatch hands out are arguments.

pub mod Pace
pub mod Replay
pub mod Bulk
mod Tests
use mediaroom.Prelude.{
  ℕ, zero, suc, ◌+◌, ◌-◌, ◌*◌, ◌/◌, ◌%◌, ◌^◌, ◌≤◌, ◌<◌, ◌≡◌, ◌≢◌, refl, sym, ap, ◌∙◌, ◌↔◌, ◌⊎◌, inl,
  inr, Bool, true, false, not, ◌&&◌, ◌||◌, Option, none, some, List, [], ◌∷◌, ◌++◌, map, arith, ltb,
  leb, ◌==◌, if◌then◌else◌, ltb→lt, lt→ltb, leb→le, ==_iff, Bool-cases, Option-cases, length,
  get_elem?, take, replicate, length-append, All, Distinct, All-left, All-right,
}
use mediaroom.Time.{Timeval, timeval_to_usecs}

-- What pcap_datalink answers, and the Packet::Type of a packet.
pub data Datalink : Type 0 where
  dlt_mtp2 dlt_mtp3 dlt_lapd dlt_other : Datalink

pub data Link : Type 0 where
  l2_eth l2_mtp l2_mtp3 l2_hdlc l2_gfp l2_lapd : Link

abbrev pub link_of : Datalink → Link
link_of dlt_mtp2 = l2_mtp
link_of dlt_mtp3 = l2_mtp3
link_of dlt_lapd = l2_lapd
link_of dlt_other = l2_eth

-- What pcap gives to the handler, and the Packet that is made of it.
pub record Frame : Type 0 where
  pub ts : Timeval
  pub caplen : ℕ
  pub content : List ℕ

pub record Captured : Type 0 where
  pub caplen : ℕ
  pub length : ℕ
  pub link : Link
  pub content : List ℕ

pub packet_of : Datalink → Frame → Captured
packet_of datalink f = record {
  caplen = f.caplen % 65536;
  length = f.caplen % 65536;
  link = link_of datalink;
  content = take f.caplen f.content;
}

-- DriverOffline: the packet that waits for its time, the time of the last packet in the file, and
-- when that one is to be handed out.
pub record Waiting : Type 0 where
  pub pkt : Option Captured
  pub pkt_time : ℕ
  pub pkt_sent : ℕ

-- How much later than the last packet this one was captured.
abbrev pub pkt_diff : ℕ → ℕ → ℕ
pkt_diff before time = if not (before == 0) && ltb before time then time - before else 0

-- offlineProcess with no packet waiting: whether this one is to wait.
pub schedule : ℕ → Captured → ℕ → Waiting → Bool × Waiting
schedule cur_time pkt time w =
    let total = (w.pkt_sent + pkt_diff w.pkt_time time) % 2 ^ 64 in
    let sent = if total == 0 then cur_time else total in
    (
      ltb cur_time sent,
      record {
        pkt = if ltb cur_time sent then some pkt else none;
        pkt_time = time;
        pkt_sent = sent;
      },
    )

-- A result of none is a failed RT_ASSERT.
pub offline_process : ℕ → Captured → Timeval → Waiting → Option (Bool × Waiting)
unfolding schedule
offline_process cur_time pkt ts w = elim w.pkt [
  | some p ↦ none
  | none ↦ some (schedule cur_time pkt (timeval_to_usecs ts) w)
]

pub offline_handle : ℕ → Waiting → Option (List Captured × Waiting)
offline_handle cur_time w = elim w.pkt [
  | none ↦ none
  | some p ↦ some (if leb w.pkt_sent cur_time then (p ∷ [], record w { pkt = none }) else ([], w))
]

-- The fields of DriverPcap, of pcap_driver_stat those that the handler counts in.
pub record Driver : Type 0 where
  pub datalink : Datalink
  pub offline : Bool
  pub finished : Bool
  pub rx_bytes : ℕ
  pub rx_packs : ℕ
  pub waiting : Waiting

-- What the handler does with a packet once offlineProcess has answered.
pub keep :
    List Captured → Captured → Driver → Option (Bool × Waiting) → Option (List Captured × Driver)
keep bulk c d none = none
keep bulk c d (some (held, w)) =
    some (if held then bulk else bulk ++ (c ∷ []), record d { waiting = w })

-- pcapHandler, on the packets in the bulk so far.
pub pcap_handler : ℕ → Frame → List Captured → Driver → Option (List Captured × Driver)
unfolding packet_of offline_process keep
pcap_handler cur_time f bulk d =
    let c = packet_of d.datalink f in
    let counted = record d {
      rx_bytes = (d.rx_bytes + f.caplen % 65536) % 2 ^ 64;
      rx_packs = (d.rx_packs + 1) % 2 ^ 64;
    } in
    if leb 65536 f.caplen
    then some (bulk, d)
    else if d.offline
    then keep bulk c counted (offline_process cur_time c f.ts d.waiting)
    else some (bulk ++ (c ∷ []), counted)

-- The calls of the handler that pcap_dispatch makes.
pub handle_all : ℕ → List Frame → List Captured → Driver → Option (List Captured × Driver)
unfolding pcap_handler
handle_all cur_time [] bulk d = some (bulk, d)
handle_all cur_time (f ∷ fs) bulk d = elim (pcap_handler cur_time f bulk d) [
  | none ↦ none
  | some (bulk', d') ↦ handle_all cur_time fs bulk' d'
]

abbrev pub has_none : List Captured → Bool
has_none [] = true
has_none (c ∷ cs) = false

abbrev pub is_held : Option Captured → Bool
is_held none = false
is_held (some c) = true

-- The end of getPackets: nothing read from a file is taken for its end.
pub mark_finished : List Captured → Driver → Driver
mark_finished bulk d =
    if d.offline && has_none bulk && not (is_held d.waiting.pkt)
    then record d { finished = true }
    else d

-- getPackets on the packet that waits: what pcap_dispatch hands out, none for an error, is used
-- only if there is no such.
pub get_held : Option Captured → ℕ → Option (List Frame) → Driver → Option (List Captured × Driver)
unfolding offline_handle handle_all mark_finished
get_held (some p) cur_time dispatched d =
    if d.offline
    then elim (offline_handle cur_time d.waiting) [
      | none ↦ none
      | some (bulk, w) ↦ some (bulk, record d { waiting = w })
    ]
    else none
get_held none cur_time none d = some ([], d)
get_held none cur_time (some fs) d = elim (handle_all cur_time fs [] d) [
  | none ↦ none
  | some (bulk, d') ↦ some (bulk, mark_finished bulk d')
]

pub get_packets : ℕ → Option (List Frame) → Driver → Option (List Captured × Driver)
unfolding get_held
get_packets cur_time dispatched d = get_held d.waiting.pkt cur_time dispatched d
