-- ===== src/Device.antt =====
-- src/device.h: device types, their names and the devices that a build enables.
pub mod Laws
use Prim.Native.String.{String}
use infini_ops.Prelude.{ℕ, ◌≡◌, refl, Bool, ◌&&◌, not, List, [], ◌∷◌, arith, Outcome, ◌==◌}
use infini_ops.Prelude.Equality.{Eq, by_code, string_eq}
use infini_ops.Common.ConstexprMap.{at}
use infini_ops.Common.Traits.{filter_list}

-- `Device::Type`; `count` is the number of the others.
pub data DeviceType : Type 0 where
  cpu nvidia cambricon ascend metax moore iluvatar kunlun hygon qy count : DeviceType

abbrev pub device_code : DeviceType → ℕ
device_code cpu = 0
device_code nvidia = 1
device_code cambricon = 2
device_code ascend = 3
device_code metax = 4
device_code moore = 5
device_code iluvatar = 6
device_code kunlun = 7
device_code hygon = 8
device_code qy = 9
device_code count = 10

pub device_code-injective : (a b : DeviceType) → device_code a ≡ device_code b → a ≡ b
device_code-injective a b h = ground arith

instance abbrev pub device_type_eq : Eq DeviceType
device_type_eq = by_code device_code device_code-injective

-- `kDeviceToDesc`.
abbrev pub device_to_desc : List (DeviceType × String)
device_to_desc =
    (cpu, "cpu")
    ∷ (nvidia, "nvidia")
    ∷ (cambricon, "cambricon")
    ∷ (ascend, "ascend")
    ∷ (metax, "metax")
    ∷ (moore, "moore")
    ∷ (iluvatar, "iluvatar")
    ∷ (kunlun, "kunlun")
    ∷ (hygon, "hygon")
    ∷ (qy, "qy")
    ∷ []

-- `kDescToDevice`.
abbrev pub desc_to_device : List (String × DeviceType)
desc_to_device =
    ("cpu", cpu)
    ∷ ("nvidia", nvidia)
    ∷ ("cambricon", cambricon)
    ∷ ("ascend", ascend)
    ∷ ("metax", metax)
    ∷ ("moore", moore)
    ∷ ("iluvatar", iluvatar)
    ∷ ("kunlun", kunlun)
    ∷ ("hygon", hygon)
    ∷ ("qy", qy)
    ∷ []

pub type_from_string : String → Outcome DeviceType
unfolding at
type_from_string name = at desc_to_device name

pub string_from_type : DeviceType → Outcome String
unfolding at
string_from_type type = at device_to_desc type

-- `Device`: a type and an index on the machine.
pub record Device : Type 0 where
  pub type : DeviceType
  pub index : ℕ

-- `Device::operator==` and `operator!=`.
abbrev pub device_same : Device → Device → Bool
device_same a b = (device_code a.type == device_code b.type) && (a.index == b.index)

abbrev pub device_differs : Device → Device → Bool
device_differs a b = not (device_same a b)

-- `Device()`.
abbrev pub default_device : Device
default_device = record { type = cpu; index = 0 }

-- `AllDeviceTypes`.
abbrev pub all_device_types : List DeviceType
all_device_types =
    cpu ∷ nvidia ∷ cambricon ∷ ascend ∷ metax ∷ moore ∷ iluvatar ∷ kunlun ∷ hygon ∷ qy ∷ []

-- `ActiveDevices<Key>`: the device types whose platform header specialises `DeviceEnabled`.
unfoldable pub active_devices : (DeviceType → Bool) → List DeviceType
unfolding filter_list
active_devices enabled = filter_list enabled all_device_types
