-- ===== src/Tests/Data.antt =====
-- A small cluster: a node with an idle card, a busy one and a hot one, and a node that is offline.
use card_scope.Base.{
  ℕ, Bool, true, false, List, [], ◌∷◌, none, some, String, Ordering, compare, points,
}
use card_scope.Types.{Process, Gpu, Net, System, Node, User, admin}

-- Names compared by their length stand for the comparison by the locale, and texts without
-- capitals for those that `toLowerCase` changes.
abbrev pub by_length : String → String → Ordering
by_length a b = compare (points a) (points b)

abbrev pub same_case : String → String
same_case s = s

abbrev pub card : String → String → ℕ → ℕ → ℕ → List Process → Gpu
card uuid name index util temperature processes = record {
  uuid = uuid;
  name = name;
  index = index;
  pci = "";
  util = some util;
  memory_used = some 0;
  memory_total = some 25769803776;
  temperature = some temperature;
  power = some 100;
  ecc = none;
  status = "ok";
  fields = [];
  processes = processes;
  process_status = "ok";
  source = "nvml";
  seen_at = 0;
}

abbrev pub training : Process
training = record {
  pid = 1;
  uid = "1000";
  user = "ann";
  name = "python";
  created = 0;
  memory = none;
  first_seen = 0;
  last_seen = 0;
}

abbrev pub free_card : Gpu
free_card = card "a" "RTX" 0 0 35 []

abbrev pub used_card : Gpu
used_card = card "b" "RTX" 1 90 60 (training ∷ [])

abbrev pub hot_card : Gpu
hot_card = card "c" "A100" 2 0 90 []

abbrev pub net : String → Bool → Net
net name primary = record {
  name = name;
  rx = 0;
  tx = 0;
  rx_rate = some 5;
  tx_rate = none;
  up = true;
  primary = primary;
}

abbrev pub system : System
system = record {
  cpu = none;
  cores = 8;
  load = none;
  memory_total = 100;
  memory_available = 40;
  swap_total = 0;
  swap_used = 0;
  wsl = false;
  networks = net "eth10" true ∷ net "lo" false ∷ [];
  disks = [];
  io = [];
  errors = [];
}

abbrev pub node : String → Bool → List Gpu → Node
node id online gpus = record {
  id = id;
  name = id;
  expected = 3;
  networks = [];
  tags = "lab" ∷ [];
  snapshot = record {
    at = 0;
    hostname = "host";
    cache_dropped = 0;
    gpu_status = "ok";
    gpus = gpus;
    system = system;
  };
  sample_at = 0;
  received_at = 0;
  online = online;
  enrolled = true;
  created = 0;
}

abbrev pub first_node : Node
first_node = node "n1" true (free_card ∷ used_card ∷ hot_card ∷ [])

abbrev pub second_node : Node
second_node = node "n22" false (card "d" "RTX" 0 0 35 [] ∷ [])

abbrev pub cluster : List Node
cluster = first_node ∷ second_node ∷ []

abbrev pub ann : User
ann = record { username = "ann"; role = admin; csrf = "t1" }
