-- ===== src/EBranch.antt =====
-- src/EBranch.cpp and include/EBranch.h: the branches of the selection, by which an offer was chosen.
use worker_log.Base.{ℕ, Bytes, codes}

pub data EBranchT : Type 0 where
  -- User search, context, category, short and long.
  t1 t2 t3 t4 t5 tmax : EBranchT

pub data EBranchL : Type 0 where
  l0 l1 l2 l3 l4 l5 l6 l7 l8 l9 l10 l11 l12 : EBranchL
  l13 l14 l15 l16 l17 l18 l19 l20 l21 l22 l23 : EBranchL
  l24 l25 l26 l27 l28 l29 l30 l31 l32 l33 l34 l35 l36 l37 lmax : EBranchL

-- `EBranchL2String`.
unfoldable pub to_string : EBranchL → Bytes
to_string l0 = codes "NL0"
to_string l1 = codes "NL1"
to_string l2 = codes "NL2"
to_string l3 = codes "NL3"
to_string l4 = codes "NL4"
to_string l5 = codes "NL5"
to_string l6 = codes "NL6"
to_string l7 = codes "NL7"
to_string l8 = codes "NL8"
to_string l9 = codes "NL9"
to_string l10 = codes "NL10"
to_string l11 = codes "NL11"
to_string l12 = codes "NL12"
to_string l13 = codes "NL13"
to_string l14 = codes "NL14"
to_string l15 = codes "NL15"
to_string l16 = codes "NL16"
to_string l17 = codes "NL17"
to_string l18 = codes "NL18"
to_string l19 = codes "NL19"
to_string l20 = codes "NL20"
to_string l21 = codes "NL21"
to_string l22 = codes "NL22"
to_string l23 = codes "NL23"
to_string l24 = codes "NL24"
to_string l25 = codes "NL25"
to_string l26 = codes "NL26"
to_string l27 = codes "NL27"
to_string l28 = codes "NL28"
to_string l29 = codes "NL29"
to_string l30 = codes "NL30"
to_string l31 = codes "NL31"
to_string l32 = codes "NL32"
to_string l33 = codes "NL33"
to_string l34 = codes "NL34"
to_string l35 = codes "NL35"
to_string l36 = codes "NL36"
to_string l37 = codes "NL37"
to_string lmax = codes "NOP"

-- The value of an enumerator.
unfoldable pub number : EBranchL → ℕ
number l0 = 0
number l1 = 1
number l2 = 2
number l3 = 3
number l4 = 4
number l5 = 5
number l6 = 6
number l7 = 7
number l8 = 8
number l9 = 9
number l10 = 10
number l11 = 11
number l12 = 12
number l13 = 13
number l14 = 14
number l15 = 15
number l16 = 16
number l17 = 17
number l18 = 18
number l19 = 19
number l20 = 20
number l21 = 21
number l22 = 22
number l23 = 23
number l24 = 24
number l25 = 25
number l26 = 26
number l27 = 27
number l28 = 28
number l29 = 29
number l30 = 30
number l31 = 31
number l32 = 32
number l33 = 33
number l34 = 34
number l35 = 35
number l36 = 36
number l37 = 37
number lmax = 38
