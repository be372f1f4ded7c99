-- ===== src/Samplestore/Minutes.antt =====
-- The samples of a minute, as addSampleToFile of src/samplestore.c stores them.
use mathlib.Core.List.{append-nil, append_assoc}
use mathlib.Core.Path.{subst}
use sflow_toolkit.Base.{
  ℕ, ◌/◌, ◌^◌, ◌<◌, ◌≡◌, refl, ap, ◌∙◌, true, some, Option, List, [], ◌∷◌, ◌++◌, ◌==◌, arith, sym,
  All, eq→==,
}
use sflow_toolkit.Base.Results.{ok, and_then}
use sflow_toolkit.Base.Heap.{update}
use sflow_toolkit.Bytes.{Bytes}
use sflow_toolkit.Agentlist.{Agent, agentlist_search, strncpy}
use sflow_toolkit.Agentlist.Lookup.{agentlist_search-agents}
use sflow_toolkit.Samplestore.{
  FileSystem, Stored, Store, SampleType, Slot, type_of, timestamp_of, address_of, minute_of,
  get_slot, set_slot, write, add_to_agent, add_sample_to_file, add_samples,
}
use sflow_toolkit.Samplestore.Files.{IsAtEnd, AgreesBut, write-IsAtEnd, write-AgreesBut}

get_slot-set_slot :
    (type : SampleType) (r : Slot) (a : Agent) → get_slot type (set_slot type r a) ≡ r
unfolding get_slot set_slot
get_slot-set_slot SampleType.sftype_flow r a = refl
get_slot-set_slot SampleType.sftype_cntr r a = refl

address-set_slot :
    (type : SampleType) (r : Slot) (a : Agent) → (set_slot type r a).address ≡ a.address
unfolding set_slot
address-set_slot SampleType.sftype_flow r a = refl
address-set_slot SampleType.sftype_cntr r a = refl

-- The agent `a` with the address `address` stands at `p`.
pub record IsAgent (address p : ℕ) (a : Agent) (st : Store) : Type 0 where
  pub found : agentlist_search st.agents address ≡ ok (some p)
  pub held : st.agents.agents p ≡ some a

-- The slot's samples go to the end of the file `text`, which holds `xs`.
pub record IsWriting (r : Slot) (text : Bytes) (xs : List Stored) (fs : FileSystem) : Type 0 where
  pub valid : 0 < r.fd
  pub name : r.name ≡ strncpy 256 text
  pub at_end : IsAtEnd r.fd text xs fs

-- A sample of one type, agent and minute.
pub record IsOf (type : SampleType) (address minute : ℕ) (x : Stored) : Type 0 where
  pub of_type : type_of x ≡ type
  pub of_agent : address_of x ≡ address
  pub range : timestamp_of x < 2 ^ 32
  pub of_minute : timestamp_of x / 60 ≡ minute

-- The store after a sample of the type and the minute, with the file that its samples go to.
pub record IsStored (type : SampleType) (address minute p : ℕ) (text : Bytes) (xs : List Stored)
    (st : Store) : Type 0 where
  pub agent : Agent
  pub is_agent : IsAgent address p agent st
  pub same_minute : (get_slot type agent).minute ≡ minute
  pub writing : IsWriting (get_slot type agent) text xs st.files
  pub range : agent.address < 2 ^ 32

abbrev pub samples : List (Option ℕ × Stored) → List Stored
samples [] = []
samples ((granted, x) ∷ xs) = x ∷ samples xs

module _ (stamp : ℕ → Bytes) (type : SampleType) (address minute p : ℕ) where
  -- The store after a sample that is written for the slot `r`.
  abbrev pub with_sample : Stored → Slot → Agent → FileSystem → List Bytes → Store → Store
  with_sample x r a fs q st = record {
    agents = record st.agents { agents = update st.agents.agents p (some (set_slot type r a)) };
    files = write r.fd x fs;
    queue = q;
  }

  module _ (x : Stored) (a : Agent) (st : Store) (is : IsAgent address p a st) where
    pub with_sample-IsStored :
        (r : Slot) (fs : FileSystem) (q : List Bytes) (text : Bytes) (xs : List Stored)
        → r.minute ≡ minute
        → IsWriting r text xs fs
        → a.address < 2 ^ 32
        → IsStored type address minute p text (xs ++ (x ∷ [])) (with_sample x r a fs q st)
    with_sample-IsStored r fs q text xs m w range = record {
      agent = set_slot type r a;
      is_agent = record {
        found = agentlist_search-agents st.agents _ address ∙ is.found;
        held = let eq : (p == p) ≡ true = ground arith in rw eq refl;
      };
      same_minute = ap Slot.minute (get_slot-set_slot type r a) ∙ m;
      writing =
          subst (λ r'. IsWriting r' text (xs ++ (x ∷ [])) (write r.fd x fs))
            (sym (get_slot-set_slot type r a))
            (record {
              valid = w.valid;
              name = w.name;
              at_end = write-IsAtEnd r.fd text xs x fs w.at_end;
            });
      range = rw (address-set_slot type r a) range;
    }

    pub add_sample-found :
        (granted : Option ℕ)
        → address_of x ≡ address
        → add_sample_to_file stamp granted x st ≡ add_to_agent stamp granted x p a st
    unfolding add_sample_to_file
    add_sample-found granted e = rw e (rw (is.found, and_then) (ground arith))

    add_to_agent-kept :
        (granted : Option ℕ)
        → IsOf type address minute x
        → (get_slot type a).minute ≡ minute
        → add_to_agent stamp granted x p a st
          ≡ ok (with_sample x (get_slot type a) a st.files st.queue st)
    unfolding add_to_agent
    add_to_agent-kept granted of m =
        let current : (minute_of (timestamp_of x) == (get_slot type a).minute) ≡ true =
          eq→== _ _ (omega (arith, of.of_minute, of.range, m)) in
        rw of.of_type (rw current refl)

  -- More samples of the minute go to the same file, and to no other.
  pub add_samples-kept :
      (ys : List (Option ℕ × Stored)) (text : Bytes) (xs : List Stored) (st : Store)
      → All (λ y. IsOf type address minute y.1) ys
      → IsStored type address minute p text xs st
      → (st' : Store) × (add_samples stamp ys st ≡ ok st')
        × IsStored type address minute p text (xs ++ samples ys) st'
        × AgreesBut text st.files st'.files
        × (st'.queue ≡ st.queue)
  unfolding add_samples
  add_samples-kept [] text xs st all is = (
    st,
    refl,
    subst (λ zs. IsStored type address minute p text zs st) (sym (append-nil xs)) is,
    λ name other. refl,
    refl,
  )
  add_samples-kept ((granted, y) ∷ ys) text xs st (of, all) is =
      let r = get_slot type is.agent in
      let st₁ = with_sample y r is.agent st.files st.queue st in
      let stored =
        with_sample-IsStored y is.agent st is.is_agent r st.files st.queue text xs is.same_minute
          is.writing is.range in
      let run : add_sample_to_file stamp granted y st ≡ ok st₁ =
        add_sample-found y is.agent st is.is_agent granted of.of_agent
        ∙ add_to_agent-kept y is.agent st is.is_agent granted of is.same_minute in
      let (st', runs, is', agrees, queue) =
        add_samples-kept ys text (xs ++ (y ∷ [])) st₁ all stored in
      (
        st',
        rw (run, and_then) runs,
        subst (λ zs. IsStored type address minute p text zs st')
            (append_assoc xs (y ∷ []) (samples ys)) is',
        λ name other.
            agrees name other
            ∙ write-AgreesBut r.fd text xs y st.files is.writing.at_end name other,
        queue,
      )
