-- ===== src/Configparser/Values.antt =====
-- What each field of the collector's configuration ends up as, by the names that
-- src/configparser.c gives the settings.
use sflow_toolkit.Base.{
  List, [], ◌∷◌, ◌≡◌, refl, sym, ◌==◌, ◌&&◌, if◌then◌else◌, Bool, true, false, arith,
}
use mathlib.Core.Path.{subst}
use sflow_toolkit.Bytes.{Bytes}
use sflow_toolkit.Util.{codes, same, atoi}
use sflow_toolkit.Agentlist.{strncpy}
use sflow_toolkit.Configparser.Settings.{StcollectdConfig, set_stcollectd}

-- The value of the last setting with this name, read by `f`; without one, the old value.
abbrev pub last_of : {A : Type 0} → Bytes → (Bytes → A) → A → List (Bytes × Bytes) → A
last_of name f old [] = old
last_of name f old ((key, val) ∷ settings) =
    last_of name f (if same key name then f val else old) settings

-- Each field on its own.
abbrev pub settled : List (Bytes × Bytes) → StcollectdConfig → StcollectdConfig
settled settings c = record {
  port = last_of (codes "port") atoi c.port settings;
  loglevel = last_of (codes "loglevel") atoi c.loglevel settings;
  hashbits = last_of (codes "hash bits") atoi c.hashbits settings;
  print_interval = last_of (codes "print interval") atoi c.print_interval settings;
  flush_interval = last_of (codes "flush interval") atoi c.flush_interval settings;
  stats_interval = last_of (codes "stats interval") atoi c.stats_interval settings;
  buffer_size = last_of (codes "buffer size") atoi c.buffer_size settings;
  buffer_num = last_of (codes "buffer num") atoi c.buffer_num settings;
  interface = last_of (codes "interface") (strncpy 16) c.interface settings;
  datadir = last_of (codes "datadir") (strncpy 256) c.datadir settings;
  tmpdir = last_of (codes "tmpdir") (strncpy 256) c.tmpdir settings;
  msgqueue = last_of (codes "msgqueue") (strncpy 256) c.msgqueue settings;
}

same-true : (s t : Bytes) → same s t ≡ true → s ≡ t
same-true [] [] e = refl
same-true [] (d ∷ t) e = cc
same-true (c ∷ s) [] e = cc
same-true (c ∷ s) (d ∷ t) e = both (c == d) refl e (same-true s t)
  where
    both :
        (b : Bool)
        → (c == d) ≡ b
        → (b && same s t) ≡ true
        → (same s t ≡ true → s ≡ t)
        → ◌≡◌ {A = Bytes} (c ∷ s) (d ∷ t)
    both true head tail rest =
        let here : c ≡ d = ground (arith, head) in let behind = rest tail in cc
    both false head tail rest = cc

-- Whether the setting has this name, with what follows of either.
by_name : (P : Bytes → Type 0) (key name : Bytes) → P name → (same key name ≡ false → P key) → P key
by_name P key name there elsewhere = go (same key name) refl
  where
    go : (b : Bool) → same key name ≡ b → P key
    go true e = subst P (sym (same-true key name e)) there
    go false e = elsewhere e

pub set_stcollectd-settled :
    (key val : Bytes) (c : StcollectdConfig)
    → set_stcollectd key val c ≡ settled ((key, val) ∷ []) c
unfolding set_stcollectd
set_stcollectd-settled key val c =
    let P : Bytes → Type 0 = λ k. set_stcollectd k val c ≡ settled ((k, val) ∷ []) c in
    by_name P key (codes "loglevel") refl λ h0. by_name P key (codes "port") refl λ h1.
      by_name P key (codes "hash bits") refl λ h2. by_name P key (codes "print interval") refl λ h3.
        by_name P key (codes "flush interval") refl λ h4.
          by_name P key (codes "buffer size") refl λ h5.
            by_name P key (codes "buffer num") refl λ h6.
              by_name P key (codes "stats interval") refl λ h7.
                by_name P key (codes "interface") refl λ h8.
                  by_name P key (codes "datadir") refl λ h9.
                    by_name P key (codes "tmpdir") refl λ h10.
                      by_name P key (codes "msgqueue") refl
                        λ h11. rw (h0, h1, h2, h3, h4, h5, h6, h7, h8, h9, h10, h11) refl
