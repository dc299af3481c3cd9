-- ===== src/Storage.antt =====
-- internal/storage/storage.go: the Store interface that the targets use, and FileStore, which keeps the custom targets
-- and the hidden names in one file. A file is its text; json.MarshalIndent and json.Unmarshal of the
-- envelope are the parameters `print` and `read`. A write of a file may fail before it or in the middle of it.
pub mod Disk
pub mod Files
pub mod Tests
use rain_scanner.Base.{ℕ, ◌≡◌, ◌≢◌, codes, Bool, true, false, List, Option, some, Text, Result, ok}

pub record CustomTarget : Type 0 where
  pub name : Text
  pub cidrs : List Text
  pub api_url : Text

-- providers.RangeFile, without the time stamp.
pub record RangeFile : Type 0 where
  pub cdn : Text
  pub count : ℕ
  pub cidrs : List Text
  pub source : Text

pub data StoreError : Type 0 where
  unreadable unparsable unsafe_name not_written : StoreError

-- What the registry uses of storage.Store. A save gives the new state, and whether it succeeded.
pub record Store : Type 1 where
  pub State : Type 0
  pub ranges : Text → State → Option RangeFile
  pub save_ranges : RangeFile → State → State × Bool
  pub load_customs : State → Result StoreError (List CustomTarget)
  pub save_customs : List CustomTarget → State → State × Bool
  pub load_hidden : State → Result StoreError (List Text)
  pub save_hidden : List Text → State → State × Bool

-- What the interface promises: a save that succeeds is read back, the user's two lists do not disturb each other when
-- they are saved, and a range file disturbs no other and neither list, unless it is called like the file that holds
-- both. A save of one of the two lists that fails promises nothing, for they share a file.
pub record IsStore (store : Store) : Type 0 where
  pub customs_saved :
      (cs : List CustomTarget) (d : store.State)
      → (store.save_customs cs d).1 ≡ true
      → store.load_customs (store.save_customs cs d).0 ≡ ok cs
  pub hidden_saved :
      (hs : List Text) (d : store.State)
      → (store.save_hidden hs d).1 ≡ true
      → store.load_hidden (store.save_hidden hs d).0 ≡ ok hs
  pub customs_kept :
      (hs : List Text) (d : store.State)
      → (store.save_hidden hs d).1 ≡ true
      → store.load_customs (store.save_hidden hs d).0 ≡ store.load_customs d
  pub hidden_kept :
      (cs : List CustomTarget) (d : store.State)
      → (store.save_customs cs d).1 ≡ true
      → store.load_hidden (store.save_customs cs d).0 ≡ store.load_hidden d
  pub ranges_keep_customs :
      (rf : RangeFile) (d : store.State)
      → rf.cdn ≢ codes "custom"
      → store.load_customs (store.save_ranges rf d).0 ≡ store.load_customs d
  pub ranges_keep_hidden :
      (rf : RangeFile) (d : store.State)
      → rf.cdn ≢ codes "custom"
      → store.load_hidden (store.save_ranges rf d).0 ≡ store.load_hidden d
  pub ranges_saved :
      (rf : RangeFile) (d : store.State)
      → (store.save_ranges rf d).1 ≡ true
      → store.ranges rf.cdn (store.save_ranges rf d).0 ≡ some rf
  pub ranges_other :
      (rf : RangeFile) (cdn : Text) (d : store.State)
      → rf.cdn ≢ cdn
      → store.ranges cdn (store.save_ranges rf d).0 ≡ store.ranges cdn d
