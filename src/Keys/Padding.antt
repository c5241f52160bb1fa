-- ===== src/Keys/Padding.antt =====
-- A private key survives the way to libp2p and back.
