-- ===== src/Binlog/Tests.antt =====
-- The log in blocks at concrete inputs.
use mavlink_router.Prelude.{ℕ, ◌≡◌, true, false, some, [], ◌∷◌, keep}
use mavlink_router.Os.{count}
use mavlink_router.Log.{LogEndpoint, always, Opening}
use mavlink_router.Binlog.{Binlog, ack, logging_data_process}
use mavlink_router.Binlog.Acks.{is_ack, logging_data_process_acks}

abbrev running : LogEndpoint
running = record {
  log_mode = always;
  target_system_id = some 1;
  file = some 3;
  logging_start = false;
  fsync = true;
  alive = true;
  timeout_write_total = 0;
  write_total = 0;
  write_bytes = 0;
}

abbrev blocks_to : ℕ → Binlog
blocks_to n = record { log = running; last_acked_seqno = n; sent = []; blocks = [] }

abbrev opening : Opening
opening = record { file = some 4; logging_start = true; fsync = true }

logging_data_process_acks_example :
    keep is_ack (logging_data_process opening true (count 200) 7 (1 ∷ []) (blocks_to 4)).sent
    ≡ ack 7 ∷ []
logging_data_process_acks_example =
    logging_data_process_acks opening true (count 200) 7 (1 ∷ []) (blocks_to 4)
