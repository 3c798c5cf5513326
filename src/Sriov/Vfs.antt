-- ===== src/Sriov/Vfs.antt =====
-- `configure_sriov_vf` of os_net_config/sriov_config.py.
use os_net_config.Base.{
  ℕ, String, ◌≡◌, refl, ap, ◌∙◌, inl, inr, Bool, true, false, ◌&&◌, not, Option, none, some, List,
  [], ◌∷◌, ◌++◌, arith, if◌then◌else◌, Bool-cases, ◌==◌, list_beq, nat_eq, str_eq, option_str_eq,
}
use os_net_config.Base.Str.{Str, str, decimal}
use os_net_config.Base.Dict.{get, last_of, UniqueKeys}
use os_net_config.Mapping.{
  value_beq, value_eq, Item, field_is, or_null, optional, Value, null, flag, number, text, device,
}
use os_net_config.Mapping.Vf.{driver_field, set_vf_fields, set_vf, VfSettings, plain_fields}
use os_net_config.Mapping.Vf.Updates.{cleared, get-set_vf, last_of-driver_field}

-- One action for a virtual function: an `ip` command with whether its failure is raised, or a call
-- of `set_driverctl_override`.
pub data VfStep : Type 0 where
  ip_config : List Str → Bool → VfStep
  driver_override : (pci_address driver : Value) → VfStep

-- The text that a value has in a command.
unfoldable pub text_of : Value → Str
text_of null = str "None"
text_of (flag true) = str "True"
text_of (flag false) = str "False"
text_of (number n) = decimal n
text_of (text t) = t
text_of (device pf_name vfid) = pf_name

-- `base_cmd`
abbrev pub base_cmd : Str → ℕ → List Str
base_cmd pf_name vfid =
    str "ip" ∷ str "link" ∷ str "set" ∷ str "dev" ∷ pf_name ∷ str "vf" ∷ decimal vfid ∷ []

-- `if key in item: run_ip_config_cmd(base_cmd + (word, item[key]))`
unfoldable pub setting : List Str → String → Option Value → List VfStep
unfolding text_of
setting base word none = []
setting base word (some v) = ip_config (base ++ (str word ∷ text_of v ∷ [])) true ∷ []

unfoldable pub vlan_setting : List Str → Option Value → Option Value → List VfStep
unfolding text_of
vlan_setting base none qos = []
vlan_setting base (some vlan_id) none =
    ip_config (base ++ (str "vlan" ∷ text_of vlan_id ∷ [])) true ∷ []
vlan_setting base (some vlan_id) (some qos) =
    ip_config (base ++ (str "vlan" ∷ text_of vlan_id ∷ str "qos" ∷ text_of qos ∷ [])) true ∷ []

-- `raise_error` after a rate is looked at
abbrev pub raises_after : Option Value → Bool → Bool
raises_after none raise_error = raise_error
raises_after (some rate) raise_error = if rate == number 0 then false else raise_error

unfoldable pub rate_setting : List Str → String → Option Value → Bool → List VfStep
unfolding text_of
rate_setting base word none raise_error = []
rate_setting base word (some rate) raise_error =
    ip_config (base ++ (str word ∷ text_of rate ∷ [])) (raises_after (some rate) raise_error) ∷ []

unfoldable pub promisc_setting : Option Value → Option Value → List VfStep
unfolding text_of
promisc_setting name none = []
promisc_setting name (some promisc) =
    ip_config
      (str "ip"
        ∷ str "link"
        ∷ str "set"
        ∷ str "dev"
        ∷ text_of (or_null name)
        ∷ str "promisc"
        ∷ text_of promisc
        ∷ [])
      true
    ∷ []

-- The call for the driver, and whether `item['pci_address']` raised a KeyError
unfoldable pub driver_setting : Option Value → Option Value → List VfStep × Bool
driver_setting pci_address none = ([], false)
driver_setting none (some driver) = ([], true)
driver_setting (some pci_address) (some driver) = (driver_override pci_address driver ∷ [], false)

-- The body of the loop for the entry of function `vfid` of `pf_name`: its steps, and whether a KeyError
-- was raised behind them.
unfoldable pub vf_steps : Str → ℕ → Item → List VfStep × Bool
unfolding setting vlan_setting rate_setting promisc_setting driver_setting
vf_steps pf_name vfid item =
    let base = base_cmd pf_name vfid in
    let max_tx_rate = get item (str "max_tx_rate") in
    let (driver_steps, raised) =
      driver_setting (get item (str "pci_address")) (get item (str "driver")) in
    (
      setting base "mac" (get item (str "macaddr"))
          ++ (vlan_setting base (get item (str "vlan_id")) (get item (str "qos"))
              ++ (rate_setting base "max_tx_rate" max_tx_rate true
                  ++ (rate_setting base "min_tx_rate" (get item (str "min_tx_rate"))
                        (raises_after max_tx_rate true)
                      ++ (setting base "spoofchk" (get item (str "spoofcheck"))
                          ++ (setting base "state" (get item (str "state"))
                              ++ (setting base "trust" (get item (str "trust"))
                                  ++ (promisc_setting (get item (str "name"))
                                        (get item (str "promisc"))
                                      ++ driver_steps))))))),
      raised,
    )

-- `configure_sriov_vf`: the steps of all entries in their order, up to one that raises a KeyError.
unfoldable pub configure_sriov_vf : List Item → List VfStep × Bool
unfolding vf_steps
configure_sriov_vf [] = ([], false)
configure_sriov_vf (item ∷ sriov_map) =
    let rest = configure_sriov_vf sriov_map in
    if field_is item "device_type" (text (str "vf"))
    then elim (get item (str "device")) [
      | some (device pf_name vfid) ↦
          let (steps, raised) = vf_steps pf_name vfid item in
          if raised then (steps, true) else (steps ++ rest.0, rest.1)
      | _ ↦ rest
    ]
    else rest

-- The steps as they follow from the settings.
abbrev pub given : Option Str → String → List Str → List VfStep
given none word base = []
given (some t) word base = ip_config (base ++ (str word ∷ t ∷ [])) true ∷ []

abbrev pub vlan_given : ℕ → ℕ → List Str → List VfStep
vlan_given vlan_id qos base =
    if vlan_id == 0
    then []
    else ip_config
        (base
          ++ (str "vlan"
              ∷ decimal vlan_id
              ∷ (if qos == 0 then [] else str "qos" ∷ decimal qos ∷ [])))
        true
      ∷ []

-- The driver of the entry: the one of the call, or if the call gives none, the one that the entry had.
abbrev pub driver_after : Option Str → Option Value → Option Value
driver_after none old = cleared old
driver_after (some []) old = cleared old
driver_after (some (c ∷ driver)) old = some (text (c ∷ driver))

-- Only the address of the call counts.
abbrev pub override : Option Str → Option Value → List VfStep
override (some pci_address) (some driver) = driver_override (text pci_address) driver ∷ []
override pci_address driver = []

abbrev pub lacks_address : Option Str → Option Value → Bool
lacks_address none (some driver) = true
lacks_address pci_address driver = false

abbrev pub expected_steps : Str → ℕ → Str → VfSettings → Option Value → List VfStep
expected_steps pf_name vfid vf_name s driver =
    let base = base_cmd pf_name vfid in
    given s.macaddr "mac" base
    ++ (vlan_given s.vlan_id s.qos base
        ++ (ip_config (base ++ (str "max_tx_rate" ∷ decimal s.max_tx_rate ∷ []))
              (not (s.max_tx_rate == 0))
            ∷ ip_config (base ++ (str "min_tx_rate" ∷ decimal s.min_tx_rate ∷ []))
                (not (s.max_tx_rate == 0) && not (s.min_tx_rate == 0))
            ∷ (setting base "spoofchk" (cleared s.spoofcheck)
                ++ (given s.state "state" base
                    ++ (setting base "trust" (cleared s.trust)
                        ++ (promisc_setting (some (text vf_name)) (cleared s.promisc)
                            ++ override s.pci_address driver))))))

cleared_number :
    (n : ℕ)
    → cleared (some (if n == 0 then null else number n))
      ≡ (if n == 0 then none else some (number n))
unfolding value_beq
cleared_number n = ground arith

cleared-or_null : (o : Option Value) → cleared (some (or_null o)) ≡ cleared o
unfolding value_beq
cleared-or_null none = refl
cleared-or_null (some v) = refl

setting-given :
    (base : List Str) (word : String) (t : Option Str)
    → setting base word (cleared (some (or_null (optional t)))) ≡ given t word base
unfolding setting value_beq text_of
setting-given base word none = refl
setting-given base word (some t) = refl

vlan_setting-given :
    (base : List Str) (vlan_id qos : ℕ)
    → vlan_setting base
        (cleared (some (if vlan_id == 0 then null else number vlan_id)))
        (cleared (some (if qos == 0 then null else number qos)))
      ≡ vlan_given vlan_id qos base
unfolding vlan_setting text_of
vlan_setting-given base vlan_id qos =
    rw (cleared_number vlan_id, cleared_number qos)
      (elim (Bool-cases (vlan_id == 0)) [
        | inl no_vlan ↦ rw no_vlan refl
        | inr vlan ↦ elim (Bool-cases (qos == 0)) [
          | inl no_qos ↦ rw (vlan, no_qos) refl
          | inr with_qos ↦ rw (vlan, with_qos) refl
        ]
      ])

cleared_text : (t : Str) → cleared (some (text t)) ≡ some (text t)
unfolding value_beq
cleared_text t = refl

raises_after-number :
    (rate : ℕ) → raises_after (cleared (some (number rate))) true ≡ not (rate == 0)
unfolding value_beq
raises_after-number rate = ground arith

rate_setting-number :
    (base : List Str) (word : String) (rate : ℕ) (raise_error : Bool)
    → rate_setting base word (cleared (some (number rate))) raise_error
      ≡ ip_config (base ++ (str word ∷ decimal rate ∷ [])) (raise_error && not (rate == 0)) ∷ []
unfolding rate_setting value_beq text_of
rate_setting-number base word rate raise_error =
    ap (λ r. ip_config (base ++ (str word ∷ decimal rate ∷ [])) r ∷ []) (ground arith)

module _ (vf_name : Str) (s : VfSettings) (item : Item) (u : UniqueKeys item) where
  abbrev vf_item : Item
  vf_item = set_vf (set_vf_fields vf_name s) item

  get-vf_item :
      (key : String)
      → (str "driver" == str key) ≡ false
      → get vf_item (str key)
        ≡ cleared (last_of (plain_fields vf_name s) (str key) (get item (str key)))
  get-vf_item key h =
      get-set_vf (set_vf_fields vf_name s) item (str key) u
      ∙ ap cleared (last_of-plain (str key) (get item (str key)) h)
    where
      last_of-plain :
          (k : Str) (o : Option Value)
          → (str "driver" == k) ≡ false
          → last_of (set_vf_fields vf_name s) k o ≡ last_of (plain_fields vf_name s) k o
      last_of-plain k o g = unfold set_vf_fields in last_of-driver_field s.driver k _ g

  get-driver :
      get vf_item (str "driver")
      ≡ cleared (last_of (driver_field s.driver) (str "driver") (get item (str "driver")))
  get-driver =
      get-set_vf (set_vf_fields vf_name s) item (str "driver") u
      ∙ (unfold set_vf_fields str list_beq in refl)

  driver-after :
      (given : Option Str) (old : Option Value)
      → cleared (last_of (driver_field given) (str "driver") old) ≡ driver_after given old
  unfolding value_beq str list_beq
  driver-after none old = refl
  driver-after (some []) old = refl
  driver-after (some (c ∷ driver)) old = refl

  driver_setting-override :
      (pci_address : Option Str) (driver : Option Value)
      → driver_setting (cleared (some (or_null (optional pci_address)))) driver
        ≡ (override pci_address driver, lacks_address pci_address driver)
  unfolding driver_setting value_beq
  driver_setting-override none none = refl
  driver_setting-override none (some driver) = refl
  driver_setting-override (some pci_address) none = refl
  driver_setting-override (some pci_address) (some driver) = refl

  -- The steps for the entry that `update_sriov_vf_map` leaves are those that the settings of the
  -- call ask for, where the driver is the old one of the entry if the call gives none. A failure of
  -- the command for the minimum rate is raised only if both rates are not zero. Behind the steps a
  -- KeyError is raised exactly if there is a driver and the call has no PCI address. The entry must be
  -- a dict.
  pub vf_steps-set_vf :
      (pf_name : Str) (vfid : ℕ)
      → vf_steps pf_name vfid vf_item ≡ (
        expected_steps pf_name vfid vf_name s (driver_after s.driver (get item (str "driver"))),
        lacks_address s.pci_address (driver_after s.driver (get item (str "driver"))),
      )
  unfolding vf_steps str list_beq
  vf_steps-set_vf pf_name vfid =
      rw
        (
          get-vf_item "macaddr" refl,
          get-vf_item "vlan_id" refl,
          get-vf_item "qos" refl,
          get-vf_item "max_tx_rate" refl,
          get-vf_item "min_tx_rate" refl,
          get-vf_item "spoofcheck" refl,
          get-vf_item "state" refl,
          get-vf_item "trust" refl,
          get-vf_item "name" refl,
          get-vf_item "promisc" refl,
          get-vf_item "pci_address" refl,
          get-driver,
          driver-after s.driver (get item (str "driver")),
        )
        (rw
          (
            setting-given (base_cmd pf_name vfid) "mac" s.macaddr,
            setting-given (base_cmd pf_name vfid) "state" s.state,
            vlan_setting-given (base_cmd pf_name vfid) s.vlan_id s.qos,
            rate_setting-number (base_cmd pf_name vfid) "max_tx_rate" s.max_tx_rate true,
            rate_setting-number (base_cmd pf_name vfid) "min_tx_rate" s.min_tx_rate _,
            cleared-or_null s.spoofcheck,
            cleared-or_null s.trust,
            cleared-or_null s.promisc,
            driver_setting-override s.pci_address (driver_after s.driver (get item (str "driver"))),
            raises_after-number s.max_tx_rate,
            cleared_text vf_name,
          )
          refl)
