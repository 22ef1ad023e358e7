-- ===== src/E1000/Sample.antt =====
-- A kernel to run the network code on: a card at 0xFEB80000 with its rings set up and the router in
-- the ARP cache.
use qore_os.Base.{◌+◌, ◌*◌, [], ◌∷◌, true, some}
use qore_os.Text.{codes}
use qore_os.Machine.{Hardware}
use qore_os.E1000.{Kernel, my_mac}
use qore_os.E1000.Arp.{Mac, Ip}

abbrev pub router_mac : Mac
router_mac = record { m0 = 0x52; m1 = 0x55; m2 = 0x0A; m3 = 0x00; m4 = 0x02; m5 = 0x02 }

abbrev pub router_ip : Ip
router_ip = record { a = 10; b = 0; c = 2; d = 2 }

abbrev pub hw : Hardware
hw = record { device = λ n a. 0; place = λ n. 0x100000 + n * 4096 }

abbrev pub kernel : Kernel
kernel = record {
  nic = record {
    bar0_address = 0xFEB80000;
    rx_ring_ptr = 0x8000;
    current_rx_bucket = 0;
    tx_ring_ptr = 0x9000;
    current_tx_bucket = 7;
    mac_address = my_mac;
  };
  arp = record { ip = router_ip; mac = router_mac; active = true } ∷ [];
  http_payload = some (codes "HI");
  machine = record { ram = λ a. 0; reads = 0; writes = []; blocks = 0; console = [] };
}
