-- ===== src/Vochain/Keykeeper/Revealed.antt =====
-- Keys that were published and added to their process can be revealed.
