-- ===== src/Router/Builtin.antt =====
-- apple-wrapper/router/builtin_rules.go.
use Prim.Native.String.{String}
use folo_xray_apple.Prelude.{List, [], ◌∷◌, map, text, Bytes}

abbrev pub direct_names : List String
direct_names =
    "cn" ∷ "xn--fiqs8s" ∷ "xn--55qx5d" ∷ "xn--io0a7i" ∷ "apple.com" ∷ "icloud.com"
    ∷ "icloud-content.com" ∷ "cdn-apple.com" ∷ "mzstatic.com" ∷ "aaplimg.com" ∷ "apple-cloudkit.com"
    ∷ "apple-livephotoskit.com" ∷ "qq.com" ∷ "weixin.com" ∷ "qpic.cn" ∷ "qlogo.cn" ∷ "tenpay.com"
    ∷ "tencent.com" ∷ "tencent-cloud.net" ∷ "gtimg.cn" ∷ "gtimg.com" ∷ "wechat.com" ∷ "taobao.com"
    ∷ "tmall.com" ∷ "alipay.com" ∷ "alipayobjects.com" ∷ "alibaba.com" ∷ "alicdn.com" ∷ "aliyun.com"
    ∷ "aliyuncs.com" ∷ "tbcdn.cn" ∷ "1688.com" ∷ "baidu.com" ∷ "bdimg.com" ∷ "bdstatic.com"
    ∷ "baidupcs.com" ∷ "hao123.com" ∷ "bilibili.com" ∷ "hdslb.com" ∷ "bilivideo.com" ∷ "biliapi.net"
    ∷ "douyin.com" ∷ "bytedance.com" ∷ "byteimg.com" ∷ "douyincdn.com" ∷ "zjurl.cn" ∷ "toutiao.com"
    ∷ "feishu.cn" ∷ "jd.com" ∷ "360buyimg.com" ∷ "jdpay.com" ∷ "163.com" ∷ "126.net" ∷ "yeah.net"
    ∷ "netease.com" ∷ "127.net" ∷ "meituan.com" ∷ "dianping.com" ∷ "dpfile.com" ∷ "meituan.net"
    ∷ "zhihu.com" ∷ "zhimg.com" ∷ "weibo.com" ∷ "weibo.cn" ∷ "sinaimg.cn" ∷ "sina.com.cn"
    ∷ "xiaohongshu.com" ∷ "xhscdn.com" ∷ "xiaomi.com" ∷ "mi.com" ∷ "mi-img.com" ∷ "huawei.com"
    ∷ "dbankcdn.com" ∷ "honor.cn" ∷ "honor.com" ∷ "oppo.com" ∷ "vivo.com" ∷ "amap.com"
    ∷ "autonavi.com" ∷ "gaode.com" ∷ "unionpay.com" ∷ "95516.com" ∷ "icbc.com.cn" ∷ "ccb.com"
    ∷ "boc.cn" ∷ "abchina.com" ∷ "cmbchina.com" ∷ "bankofchina.com" ∷ "kuaishou.com"
    ∷ "kuaishoupay.com" ∷ "youku.com" ∷ "iqiyi.com" ∷ "qiyi.cn" ∷ "mgtv.com" ∷ "ximalaya.com"
    ∷ "kugou.com" ∷ "kuwo.cn" ∷ []

abbrev pub block_names : List String
block_names =
    "googleads.g.doubleclick.net" ∷ "pagead2.googlesyndication.com" ∷ "adservice.google.com"
    ∷ "adcolony.com" ∷ "unityads.unity3d.com" ∷ "applovin.com" ∷ "vungle.com" ∷ "ironsrc.com" ∷ []

-- `BuiltinDirectSuffixes`
unfoldable pub builtin_direct_suffixes : List Bytes
builtin_direct_suffixes = map text direct_names

-- `BuiltinBlockSuffixes`
unfoldable pub builtin_block_suffixes : List Bytes
builtin_block_suffixes = map text block_names
