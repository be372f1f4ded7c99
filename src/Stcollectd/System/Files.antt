-- ===== src/Stcollectd/System/Files.antt =====
-- What the writing thread of src/stcollectd.c does to the files, seen over many steps.
use mathlib.Core.List.{map, append_assoc, append-nil}
use mathlib.Core.Path.{subst}
use sflow_toolkit.Base.{
  ℕ, suc, ◌≤◌, ◌≡◌, refl, sym, ap, ◌∙◌, Option, some, List, [], ◌∷◌, ◌++◌, length, le→ltb, take,
  get_elem?, arith,
}
use sflow_toolkit.Base.Results.{ok, and_then, ◌>>=◌, >>=-eq_ok}
use sflow_toolkit.Bytes.{Bytes}
use sflow_toolkit.Configparser.Settings.{StcollectdConfig}
use sflow_toolkit.Agentlist.{AgentList}
use sflow_toolkit.Parser.Collect.{Buffer}
use sflow_toolkit.Samplestore.{Stored, Store, add_samples, add_sample_to_file}
use sflow_toolkit.Stcollectd.Collect.{Fresh}
use sflow_toolkit.Stcollectd.System.{System, store, buffer_samples, offered, write_out}
use sflow_toolkit.Stcollectd.System.Pipeline.{samples}
use sflow_toolkit.Stcollectd.System.Reachable.{IsSystem, IsHanded, All-get}

buffer_samples-all :
    {A : Type 0} (b : Buffer A) → b.count ≤ length b.items → buffer_samples b ≡ ok (samples b)
unfolding buffer_samples
buffer_samples-all b le = rw (le→ltb (length b.items) b.count le) refl

-- A round on the pair of buffers that is next in a well-formed state reads no slot behind its
-- buffers: it adds exactly the samples in them to the files, first those of flows.
write_out-samples :
    (cfg : StcollectdConfig) (stamp : ℕ → Bytes) (s : System) (granted : ℕ → Option ℕ) (b : Fresh)
    → IsSystem cfg s
    → get_elem? s.loop.flushed s.written ≡ some b
    → write_out stamp granted b (store s) ≡ (do
      st ← add_samples stamp (offered granted 0 (map Stored.flow (samples b.flow))) (store s)
      add_samples stamp
          (offered granted (length (samples b.flow)) (map Stored.cntr (samples b.cntr)))
          st)
unfolding write_out
write_out-samples cfg stamp s granted b is at =
    let h = All-get (IsHanded cfg.buffer_size) s.loop.flushed s.written b is.handed at in
    rw
      (
        buffer_samples-all b.flow (omega (arith, h.flow_count, h.flow_size)),
        buffer_samples-all b.cntr (omega (arith, h.cntr_count, h.cntr_size)),
        and_then,
      )
      refl

-- addSampleToFile was called on exactly these samples, one after the other, and each call returned;
-- in between the other thread may have changed the agents.
pub data Wrote (stamp : ℕ → Bytes) : List Stored → Store → Store → Type 0 where
  done : {st : Store} → Wrote stamp [] st st
  adds :
      {st st' u : Store} {x : Stored} {xs : List Stored} (granted : Option ℕ)
      → add_sample_to_file stamp granted x st ≡ ok st'
      → Wrote stamp xs st' u
      → Wrote stamp (x ∷ xs) st u
  meanwhile :
      {st u : Store} {xs : List Stored} (agents : AgentList)
      → Wrote stamp xs (record st { agents = agents }) u
      → Wrote stamp xs st u

pub Wrote-append :
    {stamp : ℕ → Bytes} {xs ys : List Stored} {s t u : Store}
    → Wrote stamp xs s t
    → Wrote stamp ys t u
    → Wrote stamp (xs ++ ys) s u
Wrote-append Wrote.done w = w
Wrote-append (Wrote.adds granted e v) w = Wrote.adds granted e (Wrote-append v w)
Wrote-append (Wrote.meanwhile agents v) w = Wrote.meanwhile agents (Wrote-append v w)

Wrote-add_samples :
    (stamp : ℕ → Bytes) (granted : ℕ → Option ℕ) (n : ℕ) (xs : List Stored) (st st' : Store)
    → add_samples stamp (offered granted n xs) st ≡ ok st'
    → Wrote stamp xs st st'
unfolding add_samples
Wrote-add_samples stamp granted n [] st st' e =
    let same : st ≡ st' = cc in subst (Wrote stamp [] st) same Wrote.done
Wrote-add_samples stamp granted n (x ∷ xs) st st' e =
    let (st₁, one, rest) = >>=-eq_ok (add_sample_to_file stamp (granted n) x st) _ e in
    Wrote.adds (granted n) one (Wrote-add_samples stamp granted (suc n) xs st₁ st' rest)

-- The samples of buffers in the order in which a round writes them, first those of flows.
abbrev pub to_files : List Fresh → List Stored
to_files [] = []
to_files (b ∷ bs) =
    (map Stored.flow (samples b.flow) ++ map Stored.cntr (samples b.cntr)) ++ to_files bs

pub to_files-append : (bs cs : List Fresh) → to_files (bs ++ cs) ≡ to_files bs ++ to_files cs
to_files-append [] cs = refl
to_files-append (b ∷ bs) cs =
    let here : List Stored = map Stored.flow (samples b.flow) ++ map Stored.cntr (samples b.cntr) in
    ap (λ t. here ++ t) (to_files-append bs cs)
    ∙ sym (append_assoc here (to_files bs) (to_files cs))

pub write_out-Wrote :
    (cfg : StcollectdConfig) (stamp : ℕ → Bytes) (s : System) (granted : ℕ → Option ℕ) (b : Fresh)
    (st : Store)
    → IsSystem cfg s
    → get_elem? s.loop.flushed s.written ≡ some b
    → write_out stamp granted b (store s) ≡ ok st
    → Wrote stamp (to_files (b ∷ [])) (store s) st
write_out-Wrote cfg stamp s granted b st is at e =
    let (st₁, flows, rest) =
      >>=-eq_ok (add_samples stamp (offered granted 0 (map Stored.flow (samples b.flow))) (store s))
        _ (sym (write_out-samples cfg stamp s granted b is at) ∙ e) in
    subst (λ xs. Wrote stamp xs (store s) st)
      (sym (append-nil (map Stored.flow (samples b.flow) ++ map Stored.cntr (samples b.cntr))))
      (Wrote-append
        (Wrote-add_samples stamp granted 0 (map Stored.flow (samples b.flow)) (store s) st₁ flows)
        (Wrote-add_samples stamp granted (length (samples b.flow))
          (map Stored.cntr (samples b.cntr)) st₁ st rest))

-- What the rounds so far wrote.
abbrev pub to_files_of : System → List Stored
to_files_of s = to_files (take s.written s.loop.flushed)

-- From `s` to `u` the calls of addSampleToFile are on the samples `added`, and their order is that of
-- the buffers.
pub record WritesOn (stamp : ℕ → Bytes) (s u : System) : Type 0 where
  pub added : List Stored
  pub order : to_files_of u ≡ to_files_of s ++ added
  pub calls : Wrote stamp added (store s) (store u)

pub WritesOn-trans :
    (stamp : ℕ → Bytes) (s t u : System)
    → WritesOn stamp s t
    → WritesOn stamp t u
    → WritesOn stamp s u
WritesOn-trans stamp s t u p q = record {
  added = p.added ++ q.added;
  order = q.order ∙ ap (λ l. l ++ q.added) p.order ∙ append_assoc (to_files_of s) p.added q.added;
  calls = Wrote-append p.calls q.calls;
}

-- Only agents change.
pub WritesOn-same :
    (stamp : ℕ → Bytes) (s u : System)
    → take u.written u.loop.flushed ≡ take s.written s.loop.flushed
    → record (store s) { agents = u.loop.collector.agents } ≡ store u
    → WritesOn stamp s u
WritesOn-same stamp s u same others = record {
  added = [];
  order = ap to_files same ∙ sym (append-nil (to_files_of s));
  calls = Wrote.meanwhile u.loop.collector.agents (subst (Wrote stamp [] _) others Wrote.done);
}
