-- ===== src/Network/Tests.antt =====
-- Tests and instances for the network.
use sharedgl.Prelude.{ℕ, ◌≡◌, true, false, none, some, List, [], ◌∷◌, ◌++◌, arith}
use sharedgl.Memory.{read32, store32}
use sharedgl.Layout.Reg
use sharedgl.Commands.Objects.{create_program, clear}
use sharedgl.Pb.Tests.{fresh}
use sharedgl.Server.{Effect, Server}
use sharedgl.Server.Client.{ClientCall, gl_object}
use sharedgl.Server.Tests.{idle, counting}
use sharedgl.Network.{connect, receive, Net, NetArgs, NetClient, handle, welcome, serve_net}
use sharedgl.Network.Packet.{IsWide, connect_bytes}
use sharedgl.Network.Joining.{Joined, handle-Joined}
use sharedgl.Network.Lost.{serve_net-lost}

abbrev args : NetArgs
args = record {
  framebuffer_size = 1024;
  fifo_size = 64;
  gl_major = 2;
  gl_minor = 1;
  width = 16;
  height = 16;
}

abbrev net_idle : Server
net_idle = record idle { net = true; expecting_retval = true }

-- Peer 5 is connected.
abbrev host : Net
host = record {
  shared = store32 (λ _. 0) Reg.claim_id 2;
  peer_data = λ p. some 0;
  created = 1;
  sent = [];
  ready = false;
  out_ctx = none;
  out_peer = none;
  listed = λ _. none;
  current = none;
}

abbrev remote : NetClient
remote = record {
  client_id = 1;
  fb_size = 1024;
  max_width = 16;
  max_height = 16;
  pb = record fresh { in_capacity = 64 };
  fake_register_space = λ _. 0;
  expecting_retval = true;
  glimpl_major = 2;
  glimpl_minor = 1;
}

abbrev frame : List Effect → List ℕ
frame _ = 1 ∷ 2 ∷ []

host-IsWide : IsWide (welcome args (read32 host.shared Reg.claim_id))
unfolding read32 store32
host-IsWide = record {
  client_id = omega arith;
  framebuffer_size = omega arith;
  fifo_size = omega arith;
  gl_major = omega arith;
  gl_minor = omega arith;
  max_width = omega arith;
  max_height = omega arith;
}

handle-Joined_example :
    Joined args 7 host
      (handle args (connect 7) host)
      (connect_bytes (welcome args (read32 host.shared Reg.claim_id)))
handle-Joined_example = handle-Joined args 7 host host-IsWide

abbrev drawing : List ClientCall
drawing = gl_object (clear 16384) ∷ gl_object create_program ∷ []

-- A peer connects between the two packets.
serve_net-lost_example :
    serve_net counting frame 16 args
      (([] ++ (receive 5 (1 ∷ []) ∷ ((connect 7 ∷ []) ++ (receive 6 (1 ∷ 2 ∷ []) ∷ [])))) ∷ [])
      host
      net_idle
    ≡ serve_net counting frame 16 args
        (([] ++ ((connect 7 ∷ []) ++ (receive 6 (1 ∷ 2 ∷ []) ∷ []))) ∷ [])
        host
        net_idle
serve_net-lost_example =
    serve_net-lost counting frame 16 args 5 6 (1 ∷ []) (1 ∷ 2 ∷ []) [] (connect 7 ∷ []) [] [] host
      net_idle (omega arith)
