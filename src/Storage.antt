-- ===== src/Storage.antt =====
-- The storage modules of src/storage.c: a list of modules, newest first, whose functions are called
-- one after the other. A function that a module does not have is none; what the functions work on is
-- a parameter.
use sflow_toolkit.Base.{ℕ, ◌+◌, ◌%◌, ◌^◌, Option, none, some, List, [], ◌∷◌}
use sflow_toolkit.Base.Results.{Result, ok, ◌>>=◌}
use sflow_toolkit.Bytes.{Bytes}
use sflow_toolkit.Dataparser.Keys.{KeyEthernet, KeyPorts}
use sflow_toolkit.Dataparser.Conversations.{ConvEthernet, ConvIp, ConvTcp, ConvUdp}
use sflow_toolkit.Dataparser.Table.{ConvTable}
use sflow_toolkit.Dataparser.Process.{IpSlot, CounterList}

-- `void (*store_conv_…)(conv_list_t**, uint32_t num, uint32_t agent, uint32_t timestamp)`
abbrev pub StoreConv : Type 0 → Type 0 → Type 0 → Type 0
StoreConv W K V = ConvTable K V → ℕ → ℕ → ℕ → W → Result W

pub record StorageModule (W : Type 0) : Type 0 where
  pub name : Bytes
  pub init : Option (W → Result W)
  pub destroy : Option (W → Result W)
  pub store_cntr : Option (CounterList → ℕ → W → Result W)
  pub store_conv_ethernet : Option (StoreConv W KeyEthernet ConvEthernet)
  pub store_conv_ip : Option (StoreConv W IpSlot ConvIp)
  pub store_conv_tcp : Option (StoreConv W KeyPorts ConvTcp)
  pub store_conv_udp : Option (StoreConv W KeyPorts ConvUdp)

-- `storage_module_list_t`, its modules in the order of the `next` pointers.
pub record ModuleList (W : Type 0) : Type 0 where
  pub modules : List (StorageModule W)
  pub num : ℕ

module _ {W : Type 0} where
  unfoldable pub storage_system_init : ModuleList W
  storage_system_init = record { modules = []; num = 0 }

  unfoldable pub storage_modules_register : StorageModule W → ModuleList W → ModuleList W
  storage_modules_register m l = record { modules = m ∷ l.modules; num = (l.num + 1) % 2 ^ 32 }

  -- `if(module->f != NULL) module->f(…)`
  unfoldable pub call : Option (W → Result W) → W → Result W
  call none w = ok w
  call (some f) w = f w

  -- The loop over the modules that all these functions are.
  unfoldable pub call_each :
      (StorageModule W → Option (W → Result W)) → List (StorageModule W) → W → Result W
  unfolding call
  call_each f [] w = ok w
  call_each f (m ∷ ms) w = do w' ← call (f m) w; call_each f ms w'

  -- A function with its arguments, if there is one.
  abbrev pub given_table :
      {K V : Type 0} → Option (StoreConv W K V) → ConvTable K V → ℕ → ℕ → ℕ → Option (W → Result W)
  given_table none t num agent timestamp = none
  given_table (some f) t num agent timestamp = some (f t num agent timestamp)

  abbrev pub given_list :
      Option (CounterList → ℕ → W → Result W) → CounterList → ℕ → Option (W → Result W)
  given_list none l timestamp = none
  given_list (some f) l timestamp = some (f l timestamp)

  unfoldable pub storage_modules_init : ModuleList W → W → Result W
  unfolding call_each
  storage_modules_init l = call_each StorageModule.init l.modules

  unfoldable pub storage_modules_destroy : ModuleList W → W → Result W
  unfolding call_each
  storage_modules_destroy l = call_each StorageModule.destroy l.modules

  unfoldable pub storage_modules_store_cntr : ModuleList W → CounterList → ℕ → W → Result W
  unfolding call_each
  storage_modules_store_cntr l list timestamp =
      call_each (λ m. given_list m.store_cntr list timestamp) l.modules

  unfoldable pub storage_modules_store_conv_ethernet :
      ModuleList W → StoreConv W KeyEthernet ConvEthernet
  unfolding call_each
  storage_modules_store_conv_ethernet l t num agent timestamp =
      call_each (λ m. given_table m.store_conv_ethernet t num agent timestamp) l.modules

  unfoldable pub storage_modules_store_conv_ip : ModuleList W → StoreConv W IpSlot ConvIp
  unfolding call_each
  storage_modules_store_conv_ip l t num agent timestamp =
      call_each (λ m. given_table m.store_conv_ip t num agent timestamp) l.modules

  unfoldable pub storage_modules_store_conv_tcp : ModuleList W → StoreConv W KeyPorts ConvTcp
  unfolding call_each
  storage_modules_store_conv_tcp l t num agent timestamp =
      call_each (λ m. given_table m.store_conv_tcp t num agent timestamp) l.modules

  unfoldable pub storage_modules_store_conv_udp : ModuleList W → StoreConv W KeyPorts ConvUdp
  unfolding call_each
  storage_modules_store_conv_udp l t num agent timestamp =
      call_each (λ m. given_table m.store_conv_udp t num agent timestamp) l.modules

-- A module that works on one part of what all modules work on.
module _ {A B : Type 0} where
  abbrev pub first : (A → Result A) → A × B → Result (A × B)
  first f (a, b) = do a' ← f a; ok (a', b)

  abbrev pub second : (B → Result B) → A × B → Result (A × B)
  second f (a, b) = do b' ← f b; ok (a, b')

module _ {V W : Type 0} (part : (V → Result V) → W → Result W) where
  abbrev part_conv : {K C : Type 0} → Option (StoreConv V K C) → Option (StoreConv W K C)
  part_conv none = none
  part_conv (some f) = some λ t num agent timestamp. part (f t num agent timestamp)

  abbrev part_list :
      Option (CounterList → ℕ → V → Result V) → Option (CounterList → ℕ → W → Result W)
  part_list none = none
  part_list (some f) = some λ l timestamp. part (f l timestamp)

  abbrev part_call : Option (V → Result V) → Option (W → Result W)
  part_call none = none
  part_call (some f) = some (part f)

  abbrev pub working_on : StorageModule V → StorageModule W
  working_on m = record {
    name = m.name;
    init = part_call m.init;
    destroy = part_call m.destroy;
    store_cntr = part_list m.store_cntr;
    store_conv_ethernet = part_conv m.store_conv_ethernet;
    store_conv_ip = part_conv m.store_conv_ip;
    store_conv_tcp = part_conv m.store_conv_tcp;
    store_conv_udp = part_conv m.store_conv_udp;
  }
