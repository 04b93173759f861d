-- ===== src/Packets/Arp/Tests.antt =====
-- ARP frames at the address lengths of Ethernet and IPv4.
