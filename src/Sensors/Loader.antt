-- ===== src/Sensors/Loader.antt =====
-- aidl/sensors/HalProxy.cpp: the constructors and the loading of the sub-HALs that the
-- configuration files name. A configuration file is the list of its words, or none if it does not
-- open; `dlopen` is the system's, and a library is what its two factory functions give, the
-- version and the sub-HAL. The versions are constants of SubHal.h, which is not in the
-- repository: parameters.
use Prim.Native.String as Str
use Prim.Native.String.{String}
use android_hardware_xiaomi.Common.{
  ℕ, ◌≡◌, refl, sym, ◌∙◌, ap, Bool, not, List, [], ◌∷◌, ◌++◌, Option, none, some, ◌==◌,
  if◌then◌else◌, append_assoc, append-nil,
}

pub record Library : Type 0 where
  pub get_sub_hal : Option (ℕ × ℕ)
  pub get_sub_hal_2_1 : Option (ℕ × ℕ)

pub record System : Type 0 where
  pub dlopen : String → Option Library
  pub lp64 : Bool
  pub version_2_0 : ℕ
  pub version_2_1 : ℕ

pub data SubHalWrapper : Type 0 where
  wrapper_v2_0 wrapper_v2_1 : ℕ → SubHalWrapper

abbrev pub locations : Bool → List String
locations lp64 =
    if lp64
    then "" ∷ "/vendor/lib64/hw/" ∷ "/odm/lib64/hw/" ∷ []
    else "" ∷ "/vendor/lib/hw/" ∷ "/odm/lib/hw/" ∷ []

-- The first location where the library opens.
unfoldable pub search_locations : (String → Option Library) → String → List String → Option Library
search_locations dlopen filename [] = none
search_locations dlopen filename (dir ∷ dirs) =
    let rest = search_locations dlopen filename dirs in
    elim (dlopen (Str.◌++◌ dir filename)) [ none ↦ rest | some handle ↦ some handle ]

unfoldable pub get_handle_for_sub_hal_shared_object : System → String → Option Library
unfolding search_locations
get_handle_for_sub_hal_shared_object y filename =
    search_locations y.dlopen filename (locations y.lp64)

-- The sub-HAL of a library that opened: of version 2.0 if the function for it is there, else of 2.1.
unfoldable pub sub_hal_of : System → Library → List SubHalWrapper
sub_hal_of y library = elim library.get_sub_hal [
  | some (version, sub_hal) ↦
      if not (version == y.version_2_0) then [] else wrapper_v2_0 sub_hal ∷ []
  | none ↦ elim library.get_sub_hal_2_1 [
    | none ↦ []
    | some (version, sub_hal) ↦
        if not (version == y.version_2_1) then [] else wrapper_v2_1 sub_hal ∷ []
  ]
]

-- What a word of a configuration file adds to the list.
unfoldable pub load_sub_hal : System → String → List SubHalWrapper → List SubHalWrapper
unfolding get_handle_for_sub_hal_shared_object sub_hal_of
load_sub_hal y filename list = elim (get_handle_for_sub_hal_shared_object y filename) [
  | none ↦ list
  | some library ↦ list ++ sub_hal_of y library
]

unfoldable pub load_words : System → List String → List SubHalWrapper → List SubHalWrapper
unfolding load_sub_hal
load_words y [] list = list
load_words y (word ∷ words) list = load_words y words (load_sub_hal y word list)

unfoldable pub initialize_sub_hal_list_from_config_file :
    System → Option (List String) → List SubHalWrapper → List SubHalWrapper
unfolding load_words
initialize_sub_hal_list_from_config_file y none list = list
initialize_sub_hal_list_from_config_file y (some words) list = load_words y words list

-- The constructor, with what the two configuration files hold.
unfoldable pub new_hal_proxy :
    System → Option (List String) → Option (List String) → List SubHalWrapper
unfolding initialize_sub_hal_list_from_config_file
new_hal_proxy y vendor odm =
    initialize_sub_hal_list_from_config_file y odm
      (initialize_sub_hal_list_from_config_file y vendor [])

-- The constructors with lists of sub-HALs.
unfoldable pub wrap_v2_0 : List ℕ → List SubHalWrapper
wrap_v2_0 [] = []
wrap_v2_0 (h ∷ hals) = wrapper_v2_0 h ∷ wrap_v2_0 hals

unfoldable pub new_hal_proxy_of : List ℕ → List ℕ → List SubHalWrapper
unfolding wrap_v2_0
new_hal_proxy_of hals hals_2_1 = wrap_v2_0 hals ++ wrap_v2_1 hals_2_1
  where
    wrap_v2_1 : List ℕ → List SubHalWrapper
    wrap_v2_1 [] = []
    wrap_v2_1 (h ∷ rest) = wrapper_v2_1 h ∷ wrap_v2_1 rest

-- What a word gives on its own.
abbrev pub loaded : System → String → List SubHalWrapper
loaded y word = elim (get_handle_for_sub_hal_shared_object y word) [
  | none ↦ []
  | some library ↦ sub_hal_of y library
]

abbrev pub all_loaded : System → List String → List SubHalWrapper
all_loaded y [] = []
all_loaded y (word ∷ words) = loaded y word ++ all_loaded y words

abbrev pub words_of : Option (List String) → List String
words_of none = []
words_of (some words) = words

load_sub_hal_lem :
    (y : System) (word : String) (list : List SubHalWrapper)
    → load_sub_hal y word list ≡ list ++ loaded y word
unfolding load_sub_hal
load_sub_hal_lem y word list =
    elim (get_handle_for_sub_hal_shared_object y word)
      as (λ (o : Option Library).
        (elim o [ none ↦ list | some library ↦ list ++ sub_hal_of y library ])
        ≡ list ++ (elim o [ none ↦ [] | some library ↦ sub_hal_of y library ])) [
          | none ↦ sym (append-nil list)
          | some library ↦ refl
        ]

load_words_lem :
    (y : System) (words : List String) (list : List SubHalWrapper)
    → load_words y words list ≡ list ++ all_loaded y words
unfolding load_words
load_words_lem y [] list = sym (append-nil list)
load_words_lem y (word ∷ words) list =
    load_words_lem y words (load_sub_hal y word list)
    ∙ ap (λ xs. xs ++ all_loaded y words) (load_sub_hal_lem y word list)
    ∙ append_assoc list (loaded y word) (all_loaded y words)

config_file_lem :
    (y : System) (file : Option (List String)) (list : List SubHalWrapper)
    → initialize_sub_hal_list_from_config_file y file list ≡ list ++ all_loaded y (words_of file)
unfolding initialize_sub_hal_list_from_config_file
config_file_lem y none list = sym (append-nil list)
config_file_lem y (some words) list = load_words_lem y words list

-- The sub-HALs, whose places in the list are their indices, are those that the words of the
-- vendor's file and then of the other file give, each on its own: a file that does not open, and
-- a library that is not found, has no factory or is of a wrong version, adds nothing and keeps no
-- other from being loaded.
pub new_hal_proxy_loaded :
    (y : System) (vendor odm : Option (List String))
    → new_hal_proxy y vendor odm ≡ all_loaded y (words_of vendor) ++ all_loaded y (words_of odm)
unfolding new_hal_proxy
new_hal_proxy_loaded y vendor odm =
    config_file_lem y odm (initialize_sub_hal_list_from_config_file y vendor [])
    ∙ ap (λ xs. xs ++ all_loaded y (words_of odm)) (config_file_lem y vendor [])
