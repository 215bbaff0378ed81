-- ===== src/Pb.antt =====
-- The messages of network/pb that the modelled code reads, as the generated structs of
-- network/pb/node.pb.go and network/pb/watch.pb.go have them, without the generator's own fields.
use gorigin.Prelude.{ℕ, Bool, List, Bytes, Option}

pub data Compiler : Type 0 where
  proto json jsonpb : Compiler

pub data ApiType : Type 0 where
  send call multi : ApiType

-- `Type` of the source is `api_type`.
pub record FuncApi : Type 0 where
  pub id : ℕ
  pub name : Bytes
  pub api_type : ApiType
  pub kind : Compiler

pub record FuncMsg : Type 0 where
  pub func_id : ℕ
  pub api_name : Bytes
  pub serv_name : Bytes
  pub func_name : Bytes
  pub api_type : ApiType
  pub protocal : Compiler

pub record NodeInfo : Type 0 where
  pub pid : ℕ
  pub ver : Bytes
  pub uuid : Bytes
  pub name : Bytes
  pub main : Bool
  pub host : Bytes
  pub tport : ℕ
  pub uport : ℕ
  pub hport : ℕ
  pub funcs : List FuncApi

pub record SystemStatus : Type 0 where
  pub uuid : Bytes
  pub cpu_rate : ℕ
  pub mem_free : ℕ
  pub mem_used : ℕ
  pub conn_num : ℕ

-- `rsp` of `Registered`.
pub record RegisteredRsp : Type 0 where
  pub watch : List NodeInfo
  pub funcs : List FuncApi

-- `Func` of the source is `api`.
pub record GetFuncMsgRsp : Type 0 where
  pub api : Option FuncApi
  pub list : List FuncApi

-- `Data` of the source is `node`.
pub record GetNodeMsgRsp : Type 0 where
  pub node : Option NodeInfo
  pub list : List NodeInfo

-- `Func` of the source is `msg`.
pub record GetApiConnRsp : Type 0 where
  pub msg : Option FuncMsg
  pub list : List NodeInfo
