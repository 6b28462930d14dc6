-- ===== src/Capture/Pcap.antt =====
-- DriverPcap as a driver of Capture.
use mediaroom.Pcap.Bulk.{Device, device_packets, device_packets-bounded}
use mediaroom.Capture.{DriverOps}

abbrev pub pcap_ops : DriverOps Device
pcap_ops = record {
  get_packets = device_packets;
  is_finished = λ d. d.driver.finished;
  bounded = device_packets-bounded;
}
