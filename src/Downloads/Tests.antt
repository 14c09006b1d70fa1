-- ===== src/Downloads/Tests.antt =====
-- Tests and instances for the downloads.
use sharedgl.Prelude.{refl, none, false, [], arith, ◌≡◌, ◌+◌}
use sharedgl.Server.{Server}
use sharedgl.Downloads.{Download, blocks, download_buffer}
use sharedgl.Downloads.Rounds.{Filled, download_buffer-Filled}

abbrev quiet_server : Server
quiet_server = record {
  trace = [];
  net = false;
  width = 0;
  height = 0;
  uploaded = none;
  retval = 0;
  release_client_slot = 0;
  expecting_retval = false;
  did_swap_buffers = false;
}

abbrev empty : Download
empty = record { shared = λ _. 0; offset = 0; dst = λ _. 255 }

-- Three blocks for 7000 bytes
three_blocks : blocks 7000 ≡ 3
unfolding blocks
three_blocks = refl

download_buffer-Filled_example :
    Filled 1 quiet_server
      (λ i. i + 1)
      (λ _. 0)
      refl
      0
      7000
      empty
      (download_buffer 1 quiet_server (λ i. i + 1) (λ _. 0) 7000 empty)
download_buffer-Filled_example =
    download_buffer-Filled 1 quiet_server (λ i. i + 1) (λ _. 0) refl 7000 empty (omega arith) refl
