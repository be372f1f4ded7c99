-- ===== src/Configparser/Sections.antt =====
-- The settings of a section of the configuration file, as parse_event of src/configparser.c reads
-- them: pairs of a name and a value.
use sflow_toolkit.Base.{
  List, [], ◌∷◌, ◌≡◌, refl, ◌∙◌, ◌<◌, ◌&&◌, if◌then◌else◌, Bool, true, false, length, All, lt→ltb,
}
use sflow_toolkit.Base.Results.{ok, ◌>>=◌, and_then}
use sflow_toolkit.Bytes.{Bytes}
use sflow_toolkit.Util.{codes, same}
use sflow_toolkit.Configparser.Settings.{StcollectdConfig, set_stcollectd}
use sflow_toolkit.Configparser.{
  Event, scalar, Reader, reads_agents, copy_key, set_value, agent_scalar, setting_scalar,
  scalar_event, parse_event, parse_events,
}

-- A text that parse_event does not take for the name of a section.
abbrev pub IsPlain : Bytes → Type 0
IsPlain val =
    (same val (codes "stcollectd") ≡ false)
    × (same val (codes "stprocessd") ≡ false)
    × (same val (codes "storage_mysql") ≡ false)
    × (same val (codes "storage_spectrum") ≡ false)

&&-false : (a b : Bool) → b ≡ false → (a && b) ≡ false
&&-false true b h = h
&&-false false b h = refl

pub scalar_event-IsPlain :
    (pname val : Bytes) (s : Reader)
    → IsPlain val
    → scalar_event pname val s ≡ (do
      listing ← reads_agents pname s
      if listing then agent_scalar val s else setting_scalar val s)
unfolding scalar_event
scalar_event-IsPlain pname val s (a, b, c, d) =
    let mysql = &&-false s.in_stprocessd (same val (codes "storage_mysql")) c in
    let spectrum = &&-false s.in_stprocessd (same val (codes "storage_spectrum")) d in
    rw a (rw b (rw mysql (rw spectrum refl)))

-- Outside of lists a plain text is a name and then a value.
module _ (pname val : Bytes) (s : Reader) (plain : IsPlain val) (outside : s.is_list ≡ false) where
  parse_event-key :
      length val < 256
      → s.is_value ≡ false
      → parse_event pname (scalar val) s ≡ ok (record s { key = val; is_value = true })
  unfolding parse_event reads_agents setting_scalar copy_key
  parse_event-key short turn =
      let fits = lt→ltb (length val) 256 short in
      rw (scalar_event-IsPlain pname val s plain) (rw outside (rw turn (rw fits refl)))

  parse_event-value :
      s.is_value ≡ true
      → parse_event pname (scalar val) s ≡ ok (record (set_value val s) { is_value = false })
  unfolding parse_event reads_agents setting_scalar
  parse_event-value turn = rw (scalar_event-IsPlain pname val s plain) (rw outside (rw turn refl))

-- The events of settings, and their effect on the section that the reader is in.
abbrev pub put_settings : List (Bytes × Bytes) → List Event → List Event
put_settings [] rest = rest
put_settings ((key, val) ∷ settings) rest = scalar key ∷ scalar val ∷ put_settings settings rest

abbrev pub IsSetting : Bytes × Bytes → Type 0
IsSetting (key, val) = IsPlain key × (length key < 256) × IsPlain val

abbrev pub apply_settings : List (Bytes × Bytes) → Reader → Reader
apply_settings [] s = s
apply_settings ((key, val) ∷ settings) s =
    apply_settings settings
      (record (set_value val (record s { key = key; is_value = true })) { is_value = false })

is_list-if :
    (b : Bool) (s t : Reader) (l : Bool)
    → s.is_list ≡ l
    → t.is_list ≡ l
    → (if b then s else t).is_list ≡ l
is_list-if true s t l h k = h
is_list-if false s t l h k = k

set_value-is_list : (val : Bytes) (s : Reader) → (set_value val s).is_list ≡ s.is_list
unfolding set_value
set_value-is_list val s = is_list-if s.in_stcollectd _ _ s.is_list refl (
    is_list-if s.in_stprocessd _ _ s.is_list
      (is_list-if s.in_storage_spectrum _ _ s.is_list refl
        (is_list-if s.in_storage_mysql _ _ s.is_list refl refl))
      refl)

-- Pairs of names and values, read outside of lists where a name is due, have each the effect of
-- their setting, in their order, and a name is due again behind them.
pub parse_events-put_settings :
    (pname : Bytes) (settings : List (Bytes × Bytes)) (rest : List Event) (s : Reader)
    → All IsSetting settings
    → s.is_list ≡ false
    → s.is_value ≡ false
    → parse_events pname (put_settings settings rest) s
      ≡ parse_events pname rest (apply_settings settings s)
unfolding parse_events
parse_events-put_settings pname [] rest s all outside turn = refl
parse_events-put_settings pname ((key, val) ∷ settings) rest s ((k, short, v), all) outside turn =
    let named : Reader = record s { key = key; is_value = true } in
    rw (parse_event-key pname key s k outside short turn, and_then)
      (rw (parse_event-value pname val named v outside refl, and_then)
        (parse_events-put_settings pname settings rest _ all (set_value-is_list val named ∙ outside)
          refl))

abbrev pub final_key : List (Bytes × Bytes) → Bytes → Bytes
final_key [] k = k
final_key ((key, val) ∷ settings) k = final_key settings key

abbrev configured : List (Bytes × Bytes) → StcollectdConfig → StcollectdConfig
configured [] c = c
configured ((key, val) ∷ settings) c = configured settings (set_stcollectd key val c)
