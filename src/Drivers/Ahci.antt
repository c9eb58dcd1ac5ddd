-- ===== src/Drivers/Ahci.antt =====
-- kernel/src/drivers/ahci/config.h: the structures that an AHCI controller shares with its driver,
-- one field for each member and each bit field. `HBA_FIS` is left out: it has members of two types
-- that the source does not declare.
use kess_os.Base.{ℕ, List}

pub data FisType : Type 0 where
  fis_type_reg_h2d fis_type_reg_d2h fis_type_dma_act fis_type_dma_setup : FisType
  fis_type_data fis_type_bist fis_type_pio_setup fis_type_dev_bits : FisType

-- The value of the enumerator.
unfoldable pub fis_type_code : FisType → ℕ
fis_type_code fis_type_reg_h2d = 0x27
fis_type_code fis_type_reg_d2h = 0x34
fis_type_code fis_type_dma_act = 0x39
fis_type_code fis_type_dma_setup = 0x41
fis_type_code fis_type_data = 0x46
fis_type_code fis_type_bist = 0x58
fis_type_code fis_type_pio_setup = 0x5F
fis_type_code fis_type_dev_bits = 0xA1

pub record HbaPort : Type 0 where
  pub clb : ℕ
  pub clbu : ℕ
  pub fb : ℕ
  pub fbu : ℕ
  pub is : ℕ
  pub ie : ℕ
  pub cmd : ℕ
  pub rsv0 : ℕ
  pub tfd : ℕ
  pub sig : ℕ
  pub ssts : ℕ
  pub sctl : ℕ
  pub serr : ℕ
  pub sact : ℕ
  pub ci : ℕ
  pub sntf : ℕ
  pub fbs : ℕ
  pub rsv1 : List ℕ
  pub vendor : List ℕ

pub record HbaPrdtEntry : Type 0 where
  pub dba : ℕ
  pub dbau : ℕ
  pub rsv0 : ℕ
  pub dbc : ℕ
  pub rsv1 : ℕ
  pub i : ℕ

pub record FisRegH2d : Type 0 where
  pub fis_type : ℕ
  pub pmport : ℕ
  pub rsv0 : ℕ
  pub c : ℕ
  pub command : ℕ
  pub featurel : ℕ
  pub lba0 : ℕ
  pub lba1 : ℕ
  pub lba2 : ℕ
  pub device : ℕ
  pub lba3 : ℕ
  pub lba4 : ℕ
  pub lba5 : ℕ
  pub featureh : ℕ
  pub countl : ℕ
  pub counth : ℕ
  pub icc : ℕ
  pub control : ℕ
  pub rsv1 : List ℕ

pub record FisRegD2h : Type 0 where
  pub fis_type : ℕ
  pub pmport : ℕ
  pub rsv0 : ℕ
  pub i : ℕ
  pub rsv1 : ℕ
  pub status : ℕ
  pub error : ℕ
  pub lba0 : ℕ
  pub lba1 : ℕ
  pub lba2 : ℕ
  pub device : ℕ
  pub lba3 : ℕ
  pub lba4 : ℕ
  pub lba5 : ℕ
  pub rsv2 : ℕ
  pub countl : ℕ
  pub counth : ℕ
  pub rsv3 : List ℕ
  pub rsv4 : List ℕ

pub record FisData : Type 0 where
  pub fis_type : ℕ
  pub pmport : ℕ
  pub rsv0 : ℕ
  pub rsv1 : List ℕ
  pub payload : List ℕ

pub record FisDmaSetup : Type 0 where
  pub fis_type : ℕ
  pub pmport : ℕ
  pub rsv0 : ℕ
  pub d : ℕ
  pub i : ℕ
  pub a : ℕ
  pub rsved : List ℕ
  pub dma_buffer_id : ℕ
  pub rsvd : ℕ
  pub dma_buf_offset : ℕ
  pub transfer_count : ℕ
  pub resvd : ℕ

pub record HbaMem : Type 0 where
  pub cap : ℕ
  pub ghc : ℕ
  pub is : ℕ
  pub pi : ℕ
  pub vs : ℕ
  pub ccc_ctl : ℕ
  pub ccc_pts : ℕ
  pub em_loc : ℕ
  pub em_ctl : ℕ
  pub cap2 : ℕ
  pub bohc : ℕ
  pub rsv : List ℕ
  pub vendor : List ℕ
  pub ports : List HbaPort

pub record HbaCmdHeader : Type 0 where
  pub cfl : ℕ
  pub a : ℕ
  pub w : ℕ
  pub p : ℕ
  pub r : ℕ
  pub b : ℕ
  pub c : ℕ
  pub rsv0 : ℕ
  pub pmp : ℕ
  pub prdtl : ℕ
  pub prdbc : ℕ
  pub ctba : ℕ
  pub ctbau : ℕ
  pub rsv1 : List ℕ

pub record HbaCmdTbl : Type 0 where
  pub cfis : List ℕ
  pub acmd : List ℕ
  pub rsv : List ℕ
  pub prdt_entry : List HbaPrdtEntry
